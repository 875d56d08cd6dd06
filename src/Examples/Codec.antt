-- ===== src/Examples/Codec.antt =====
-- A printer of plans that is read back, to stand for encoding/json in the examples: every character
-- is marked by `c`, `s` ends a text, and `l` ends the texts of a story.
use Prim.Native.Char.{Char, code}
use Prim.Native.String.{String}
use ponko.Common.{◌≡◌, refl, ap, List, [], ◌∷◌, map, Bool, true, false, nat_eq, if◌then◌else◌, ◌∙◌}
use ponko.Effect.{Result, ok}
use ponko.Pipeline.{Story}

abbrev push_char : Char → List (List String) → List (List String)
push_char c ((s ∷ l) ∷ doc) = (String.◌∷◌ c s ∷ l) ∷ doc
push_char c doc = doc

abbrev push_text : List (List String) → List (List String)
push_text (l ∷ doc) = ("" ∷ l) ∷ doc
push_text [] = []

read_from : Bool → String → List (List String)
read_from marked String.[] = []
read_from true (String.◌∷◌ c s) = push_char c (read_from false s)
read_from false (String.◌∷◌ c s) =
    let char = read_from true s in
    let rest = read_from false s in
    if nat_eq (code c) b'c'
    then char
    else if nat_eq (code c) b's'
    then push_text rest
    else [] ∷ rest

print_chars : String → String → String
print_chars String.[] k = String.◌∷◌ "s" k
print_chars (String.◌∷◌ c s) k = String.◌∷◌ "c" (String.◌∷◌ c (print_chars s k))

print_texts : List String → String → String
print_texts [] k = String.◌∷◌ "l" k
print_texts (s ∷ l) k = print_chars s (print_texts l k)

print_doc : List (List String) → String
print_doc [] = ""
print_doc (l ∷ doc) = print_texts l (print_doc doc)

read-print_chars :
    (s k : String) (l : List String) (doc : List (List String))
    → read_from false k ≡ l ∷ doc
    → read_from false (print_chars s k) ≡ (s ∷ l) ∷ doc
unfolding read_from print_chars
read-print_chars String.[] k l doc e = rw e
read-print_chars (String.◌∷◌ c s) k l doc e = rw (read-print_chars s k l doc e)

read-print_texts :
    (l : List String) (k : String) → read_from false (print_texts l k) ≡ l ∷ read_from false k
unfolding print_texts
read-print_texts [] k = unfold read_from in refl
read-print_texts (s ∷ l) k =
    read-print_chars s (print_texts l k) l (read_from false k) (read-print_texts l k)

read-print_doc : (doc : List (List String)) → read_from false (print_doc doc) ≡ doc
unfolding print_doc
read-print_doc [] = unfold read_from in refl
read-print_doc (l ∷ doc) = read-print_texts l (print_doc doc) ∙ ap (λ d. l ∷ d) (read-print_doc doc)

abbrev to_texts : Story → List String
to_texts s = s.title ∷ s.description ∷ s.success_criteria

abbrev of_texts : List String → Story
of_texts (title ∷ description ∷ criteria) = record {
  title = title;
  description = description;
  success_criteria = criteria;
}
of_texts _ = record { title = ""; description = ""; success_criteria = [] }

unfoldable pub print_plan : List Story → String
unfolding print_doc print_texts print_chars
print_plan stories = print_doc (map to_texts stories)

unfoldable pub read_plan : String → Result (List Story)
unfolding read_from
read_plan s = ok (map of_texts (read_from false s))

map_back : (stories : List Story) → map of_texts (map to_texts stories) ≡ stories
map_back [] = refl
map_back (s ∷ stories) = ap (λ r. s ∷ r) (map_back stories)

pub read-print_plan : (stories : List Story) → read_plan (print_plan stories) ≡ ok stories
read-print_plan stories =
    unfold read_plan print_plan in rw (read-print_doc (map to_texts stories), map_back stories)
