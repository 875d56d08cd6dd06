-- ===== src/Channels.antt =====
-- internal/channel/config.go over the table channel_configs, whose primary key is `channel_id`. The
-- times of a row, which ListAll also reads, are left out.
pub mod Upsert
use ponko.Common.{
  String, List, [], ◌∷◌, ◌++◌, Option, none, some, Bool, true, false, not, ◌==◌, is_empty, keep,
  if◌then◌else◌, select, update, order_by,
}
use ponko.Effect.{pure, exec_db, query_db}
use ponko.Chat.{ChannelConfig, ChatTables, ChatM, ChatEnv}

abbrev pub channel_key : ChannelConfig → String
channel_key c = c.channel_id

unfoldable pub effective_respond_mode : Option ChannelConfig → String
effective_respond_mode none = "mention_only"
effective_respond_mode (some c) = if is_empty c.respond_mode then "mention_only" else c.respond_mode

-- INSERT … ON CONFLICT (channel_id) DO UPDATE
abbrev pub put_config : ChannelConfig → Option ChannelConfig → ChatTables → ChatTables
put_config c none d = record d { configs = d.configs ++ c ∷ [] }
put_config c (some old) d = record d {
  configs = update channel_key c.channel_id (λ o. c) d.configs;
}

module _ (env : ChatEnv) where
  unfoldable pub list_all : ChatM (List ChannelConfig)
  unfolding order_by
  list_all =
      query_db env.host (λ d. order_by (λ c e. env.string_le c.channel_id e.channel_id) d.configs)

  unfoldable pub get_config : String → ChatM (Option ChannelConfig)
  get_config id = query_db env.host (λ d. select channel_key id d.configs)

  unfoldable pub upsert_config : ChannelConfig → ChatM (Unit {0})
  unfolding effective_respond_mode
  upsert_config c =
      let row : ChannelConfig = record c { respond_mode = effective_respond_mode (some c) } in
      exec_db env.host (λ d. put_config row (select channel_key c.channel_id d.configs) d)

  unfoldable pub delete_config : String → ChatM (Unit {0})
  delete_config id =
      exec_db env.host (λ d. record d { configs = keep (λ c. not (c.channel_id == id)) d.configs })
