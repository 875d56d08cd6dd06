-- ===== src/Channels/Upsert.antt =====
-- A channel's configuration after it is written.
use ponko.Common.{
  String, ◌≡◌, refl, ◌∙◌, ap, ◌≢◌, Option, none, some, arith, select, select-append_new,
  select-update_put, select-update_put_ne, select-append_ne, eq_iff, eq-of_ne,
}
use ponko.Effect.{World, done, exec_db, query_db}
use ponko.Chat.{ChannelConfig, ChatTables, ChatCall, ChatEnv}
use ponko.Channels.{channel_key, effective_respond_mode, put_config, get_config, upsert_config}

-- The row that is written.
abbrev pub stored : ChannelConfig → ChannelConfig
stored c = record c { respond_mode = effective_respond_mode (some c) }

put_config-select :
    (c : ChannelConfig) (d : ChatTables) (o : Option ChannelConfig)
    → select channel_key c.channel_id d.configs ≡ o
    → (select channel_key c.channel_id (put_config c o d).configs ≡ some c)
      × ((id : String)
          → id ≢ c.channel_id
          → select channel_key id (put_config c o d).configs ≡ select channel_key id d.configs)
put_config-select c d none h = (
  select-append_new channel_key c.channel_id d.configs c h refl,
  λ id ne. select-append_ne channel_key id d.configs c ne,
)
put_config-select c d (some old) h = (
  select-update_put channel_key c d.configs old h,
  λ id ne. select-update_put_ne channel_key c id d.configs ne,
)

module _ (env : ChatEnv) (c : ChannelConfig) (w : World ChatTables ChatCall)
    (written : (upsert_config env c w).0 ≡ done tt) where
  upsert_config-select :
      let after = (upsert_config env c w).1.tables in
      (select channel_key c.channel_id after.configs ≡ some (stored c))
      × ((id : String)
          → id ≢ c.channel_id
          → select channel_key id after.configs ≡ select channel_key id w.tables.configs)
  unfolding upsert_config exec_db
  upsert_config-select =
      let (own, others) =
        put_config-select (stored c) w.tables (select channel_key c.channel_id w.tables.configs)
          refl in
      (ground arith, λ id ne. let other = others id ne in ground arith)

  stored-mode :
      (c.respond_mode ≡ "" → stored c ≡ record c { respond_mode = "mention_only" })
      × (c.respond_mode ≢ "" → stored c ≡ c)
  unfolding effective_respond_mode
  stored-mode = (
    λ e. let empty = (eq_iff c.respond_mode "").1 e in ground arith,
    λ ne. let full = eq-of_ne c.respond_mode "" ne in ground arith,
  )

  -- What UpsertConfig has written is what GetConfig reads for the channel, with the mode mention_only
  -- in place of an empty one, and every other channel reads what it read before.
  pub upsert_config-get_config :
      (id : String) (cfg : Option ChannelConfig)
      → (get_config env id (upsert_config env c w).1).0 ≡ done cfg
      → (id ≡ c.channel_id
          → c.respond_mode ≡ ""
          → cfg ≡ some (record c { respond_mode = "mention_only" }))
        × (id ≡ c.channel_id → c.respond_mode ≢ "" → cfg ≡ some c)
        × (id ≢ c.channel_id → cfg ≡ select channel_key id w.tables.configs)
  unfolding get_config query_db
  upsert_config-get_config id cfg h =
      let (own, others) = upsert_config-select in
      let after = (upsert_config env c w).1 in
      let read : cfg ≡ select channel_key id after.tables.configs = ground arith in
      let kept : id ≡ c.channel_id → cfg ≡ some (stored c) =
        λ same. read ∙ ap (λ x. select channel_key x after.tables.configs) same ∙ own in
      (
        λ same empty. kept same ∙ ap some (stored-mode.0 empty),
        λ same full. kept same ∙ ap some (stored-mode.1 full),
        λ ne. read ∙ others id ne,
      )
