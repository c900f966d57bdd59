-- ===== src/Plugins.antt =====
-- src/plugin.ts, and the parts of src/client.ts that order the plugins against the manager and the
-- bus. A plugin is known by its name; `fails` says whose `setup` or `dispose` throws.
mod Tests
use whats_multi.Errors.{
  Result, ok, err, WhatsMultiError, invalid_config, client_destroyed, session_not_found, error_of,
  bare_error,
}
use mathlib.Core.List.{append_assoc, append-nil}
use whats_multi.Prelude.{
  ◌≡◌, refl, sym, ap, subst, ◌∙◌, Bool, true, false, not, ◌&&◌, ◌||◌, Option, none, some, List, [],
  ◌∷◌, ◌++◌, map, arith, if◌then◌else◌, if-false, is_empty, Text, text_eq,
}

pub record PluginRegistry : Type 0 where
  pub plugins : List Text
  pub started : Bool

unfoldable pub new_registry : PluginRegistry
new_registry = record { plugins = []; started = false }

abbrev pub has : Text → List Text → Bool
has name [] = false
has name (p ∷ ps) = text_eq p name || has name ps

abbrev refused : Result PluginRegistry
refused = err (bare_error invalid_config)

unfoldable pub register : Text → PluginRegistry → Result PluginRegistry
register name r =
    if is_empty name
    then refused
    else if has name r.plugins
    then refused
    else if r.started
    then refused
    else ok (record r { plugins = r.plugins ++ name ∷ [] })

-- What the plugins and the client's other parts were asked to do, in order.
pub data Event : Type 0 where
  set_up : Text → Event
  disposed : Text → Event
  manager_destroyed listeners_removed : Event

-- One after the other, up to and with the first that throws.
unfoldable pub setup_each : (Text → Bool) → List Text → List Event × Bool
setup_each fails [] = ([], true)
setup_each fails (p ∷ ps) =
    let rest = setup_each fails ps in
    if fails p then (set_up p ∷ [], false) else (set_up p ∷ rest.0, rest.1)

-- The calls, whether they all succeeded, and the registry.
unfoldable pub setup : (Text → Bool) → PluginRegistry → (List Event × Bool) × PluginRegistry
unfolding setup_each
setup fails r = (setup_each fails r.plugins, record r { started = true })

unfoldable pub reverse : List Text → List Text → List Text
reverse [] acc = acc
reverse (p ∷ ps) acc = reverse ps (p ∷ acc)

-- The loop of `dispose`, whose `catch` goes on: the calls, and the names of those that threw.
unfoldable pub dispose_each : (Text → Bool) → List Text → List Event × List Text
dispose_each fails [] = ([], [])
dispose_each fails (p ∷ ps) =
    let (events, failures) = dispose_each fails ps in
    (disposed p ∷ events, if fails p then p ∷ failures else failures)

-- The calls, the names of those that failed, and the registry; it throws if there are any.
unfoldable pub dispose : (Text → Bool) → PluginRegistry → (List Event × List Text) × PluginRegistry
unfolding reverse dispose_each new_registry
dispose fails r = (dispose_each fails (reverse r.plugins []), new_registry)

-- The client, as far as it stands over its parts: `ready` is whether the plugins' setup was asked for,
-- and with what result, `sessions` the ids that the manager holds.
pub record WhatsMulti : Type 0 where
  pub registry : PluginRegistry
  pub ready : Option Bool
  pub destroyed : Bool
  pub sessions : List Text
  pub events : List Event

unfoldable pub assert_alive : WhatsMulti → Result (Unit {0})
assert_alive c = if c.destroyed then err (bare_error client_destroyed) else ok tt

unfoldable pub use_plugin : Text → WhatsMulti → Result WhatsMulti
unfolding assert_alive register
use_plugin name c = elim (assert_alive c) [
  | err e ↦ err e
  | ok _ ↦ elim (register name c.registry) [ err e ↦ err e | ok r ↦ ok (record c { registry = r }) ]
]

-- `init`; the setup is asked for once, and what it came to is what every later call gets.
unfoldable pub init : (Text → Bool) → WhatsMulti → Result (WhatsMulti × Bool)
unfolding assert_alive setup
init fails c = elim (assert_alive c) [
  | err e ↦ err e
  | ok _ ↦ elim c.ready [
    | some done ↦ ok (c, done)
    | none ↦
        let ((events, done), r) = setup fails c.registry in
        ok (record c { registry = r; ready = some done; events = c.events ++ events }, done)
  ]
]

-- `session`, which only asks the manager.
unfoldable pub session : Text → WhatsMulti → Result Text
session id c = if has id c.sessions then ok id else err (error_of session_not_found id)

-- A part of `destroy`: the client after it, and whether it came to its end without a throw.
abbrev pub Action : Type 0
Action = WhatsMulti → WhatsMulti × Bool

-- `try { a } finally { b }`: `b` runs behind `a` whether that has thrown or not.
unfoldable pub finally_do : Action → Action → Action
finally_do a b c = let (c1, done) = a c in let (c2, closed) = b c1 in (c2, done && closed)

-- The manager's `destroy`.
abbrev pub destroy_manager : Bool → Action
destroy_manager manager_fails c =
    (record c { sessions = []; events = c.events ++ manager_destroyed ∷ [] }, not manager_fails)

abbrev pub dispose_plugins : (Text → Bool) → Action
dispose_plugins fails c =
    let ((events, failures), r) = dispose fails c.registry in
    (record c { registry = r; events = c.events ++ events }, is_empty failures)

abbrev pub remove_listeners : Action
remove_listeners c = (record c { events = c.events ++ listeners_removed ∷ [] }, true)

-- `destroy`, and whether it resolves.
unfoldable pub destroy : Bool → (Text → Bool) → Action
unfolding dispose finally_do
destroy manager_fails fails c =
    if c.destroyed
    then (c, true)
    else finally_do (destroy_manager manager_fails)
        (finally_do (dispose_plugins fails) remove_listeners) (record c { destroyed = true })

-- The names from the last to the first.
abbrev backwards : List Text → List Text
backwards [] = []
backwards (p ∷ ps) = backwards ps ++ p ∷ []

reverse-backwards : (ps acc : List Text) → reverse ps acc ≡ backwards ps ++ acc
unfolding reverse
reverse-backwards [] acc = refl
reverse-backwards (p ∷ ps) acc =
    reverse-backwards ps (p ∷ acc) ∙ sym (append_assoc (backwards ps) (p ∷ []) acc)

all_reversed : (ps : List Text) → reverse ps [] ≡ backwards ps
all_reversed ps = reverse-backwards ps [] ∙ append-nil (backwards ps)

-- Whether no plugin's `dispose` throws.
abbrev pub none_fails : (Text → Bool) → List Text → Bool
none_fails fails [] = true
none_fails fails (p ∷ ps) = not (fails p) && none_fails fails ps

none_fails-append :
    (fails : Text → Bool) (ps qs : List Text)
    → none_fails fails (ps ++ qs) ≡ (none_fails fails ps && none_fails fails qs)
none_fails-append fails [] qs = refl
none_fails-append fails (p ∷ ps) qs = ground (arith, none_fails-append fails ps qs)

none_fails-backwards :
    (fails : Text → Bool) (ps : List Text) → none_fails fails (backwards ps) ≡ none_fails fails ps
none_fails-backwards fails [] = refl
none_fails-backwards fails (p ∷ ps) =
    ground (arith, none_fails-append fails (backwards ps) (p ∷ []), none_fails-backwards fails ps)

dispose_each-all :
    (fails : Text → Bool) (ps : List Text)
    → ((dispose_each fails ps).0 ≡ map disposed ps)
      × (is_empty (dispose_each fails ps).1 ≡ none_fails fails ps)
unfolding dispose_each
dispose_each-all fails [] = (refl, refl)
dispose_each-all fails (p ∷ ps) =
    let (all, left) = dispose_each-all fails ps in (ap (λ es. disposed p ∷ es) all, ground arith)

-- What the end of the client `c` comes to.
abbrev pub Ended : Bool → (Text → Bool) → WhatsMulti → WhatsMulti × Bool → Type 0
Ended manager_fails fails c (ended, resolves) =
    (ended.events
      ≡ c.events
        ++ manager_destroyed ∷ []
        ++ map disposed (backwards c.registry.plugins)
        ++ listeners_removed ∷ [])
    × (resolves ≡ (not manager_fails && none_fails fails c.registry.plugins))
    × (ended.registry.plugins ≡ [])
    × (ended.destroyed ≡ true)

-- Destroying a living client destroys the manager, then disposes each plugin once in the reverse of
-- the order of registration, and then removes the listeners. Each of these is done whichever of those
-- before it throw, and it resolves exactly if none does. The client is then destroyed and has no
-- plugins left, and another `destroy` changes nothing and resolves.
pub destroy_order :
    (manager_fails : Bool) (fails : Text → Bool) (c : WhatsMulti)
    → c.destroyed ≡ false
    → Ended manager_fails fails c (destroy manager_fails fails c)
      × (destroy manager_fails fails (destroy manager_fails fails c).0
          ≡ ((destroy manager_fails fails c).0, true))
unfolding destroy finally_do dispose new_registry
destroy_order manager_fails fails c living =
    let (all, left) = dispose_each-all fails (reverse c.registry.plugins []) in
    let start = c.events ++ manager_destroyed ∷ [] in
    subst
      (λ (p : WhatsMulti × Bool).
        Ended manager_fails fails c p × (destroy manager_fails fails p.0 ≡ (p.0, true)))
      (if-false c.destroyed _ _ living)
      (
        (
          ap (λ es. start ++ es ++ listeners_removed ∷ [])
              (all ∙ ap (map disposed) (all_reversed c.registry.plugins)),
          ap (λ b. not manager_fails && (b && true))
                (left
                  ∙ ap (none_fails fails) (all_reversed c.registry.plugins)
                  ∙ none_fails-backwards fails c.registry.plugins)
              ∙ ground arith,
          refl,
          refl,
        ),
        refl,
      )
