-- ===== src/Plugins/Tests.antt =====
-- A client with two plugins, the first of which fails.
use whats_multi.Errors.{ok, err, invalid_config, bare_error}
use whats_multi.Plugins.{
  PluginRegistry, register, set_up, disposed, setup, dispose, WhatsMulti, destroy, Ended,
  destroy_order,
}
use whats_multi.Prelude.{◌≡◌, refl, Bool, true, false, none, [], ◌∷◌, Text, codes, text_eq}

abbrev both : PluginRegistry
both = record { plugins = codes "hook" ∷ codes "rest" ∷ []; started = false }

registers :
    register (codes "rest") (record { plugins = codes "hook" ∷ []; started = false }) ≡ ok both
unfolding register
registers = refl

again : register (codes "rest") both ≡ err (bare_error invalid_config)
unfolding register
again = refl

abbrev hook_fails : Text → Bool
hook_fails name = text_eq name (codes "hook")

stops_at_failure : (setup hook_fails both).0 ≡ (set_up (codes "hook") ∷ [], false)
unfolding setup
stops_at_failure = refl

disposes_both :
    (dispose hook_fails both).0
    ≡ (disposed (codes "rest") ∷ disposed (codes "hook") ∷ [], codes "hook" ∷ [])
unfolding dispose
disposes_both = refl

abbrev client : WhatsMulti
client = record {
  registry = both;
  ready = none;
  destroyed = false;
  sessions = codes "desk" ∷ [];
  events = [];
}

destroy_order_example :
    Ended true hook_fails client (destroy true hook_fails client)
    × (destroy true hook_fails (destroy true hook_fails client).0
        ≡ ((destroy true hook_fails client).0, true))
destroy_order_example = destroy_order true hook_fails client refl
