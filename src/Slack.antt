-- ===== src/Slack.antt =====
-- internal/slack/errors.go.
pub mod Link
use ponko.Common.{String, List, [], ◌∷◌, Bool, false, ◌||◌, ◌⧺◌, contains}
use ponko.Effect.{Err, error}

abbrev pub permanent_errors : List String
permanent_errors =
    "channel_not_found" ∷ "not_in_channel" ∷ "account_inactive" ∷ "invalid_auth" ∷ "token_revoked"
    ∷ []

unfoldable pub mentions_one : String → List String → Bool
mentions_one msg [] = false
mentions_one msg (code ∷ codes) =
    contains msg ("slack API error: " ⧺ code) || mentions_one msg codes

unfoldable pub is_permanent_error : Err → Bool
unfolding mentions_one error
is_permanent_error e = mentions_one (error e) permanent_errors

unfoldable pub is_credential_error : Err → Bool
unfolding error
is_credential_error e = contains (error e) "invalid_auth" || contains (error e) "token_revoked"
