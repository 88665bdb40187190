-- ===== src/App/Registry.antt =====
-- The table of applications: `register_app` and `launch` on a valid one.
use mathlib.Core.Option.{some-injective}
use xbt_os_misaka.App.{
  AppBundle, AppContext, AppManager, AppManifest, AppResult, app_context, container_path_size,
  err_full, err_invalid, err_not_found, find_app, init, is_registered, launch, launch_bundle,
  max_apps, ok, register_app, register_new, zero_bundle, default_allowed_permissions,
}
use xbt_os_misaka.App.Container.{build_container_path_lem}
use xbt_os_misaka.Console.{Trace, print, print_string}
use xbt_os_misaka.KString.{Bytes, streq}
use xbt_os_misaka.Prelude.{
  ℕ, zero, suc, ◌+◌, ◌≤◌, ◌<◌, ◌≡◌, ◌⊎◌, ◌∙◌, inl, inr, refl, none, some, Option, Run, Bool-cases,
  List, [], ◌∷◌, ◌++◌, true, false, sym, All, All-set, All-replicate, leb, arith, get_or, length,
  length-replicate, length-set, set, store-eq_some, replicate, Option-cases,
}

-- What `launch` prints before the application starts.
abbrev pub banner : AppManifest → AppContext → Trace
banner manifest context =
    print "Launching app: "
    ++ print_string manifest.display_name
    ++ print "\nSandbox: "
    ++ print_string context.sandbox.container_path
    ++ print "\n"

module _ {Entry : Type 0} where
  -- A bundle in use has an identifier and an entry point.
  abbrev pub IsReady : AppBundle Entry → Type 0
  IsReady b =
      (b.is_used ≡ false)
      ⊎ ((own : Bytes) × (entry : Entry) × (b.is_used ≡ true)
          × (b.manifest.identifier ≡ some own)
          × (b.entry ≡ some entry))

  pub record IsValid (m : AppManager Entry) : Type 0 where
    pub size : length m.apps ≡ max_apps
    pub counted : m.app_count ≤ max_apps
    pub ready : All IsReady m.apps

  -- The bundle is in use under the identifier.
  pub record Matches (b : AppBundle Entry) (identifier own : Bytes) (entry : Entry) : Type 0 where
    pub used : b.is_used ≡ true
    pub named : b.manifest.identifier ≡ some own
    pub same : streq own identifier ≡ true
    pub starts : b.entry ≡ some entry

  -- The bundle is not in use under the identifier.
  abbrev pub Other : AppBundle Entry → Bytes → Type 0
  Other b identifier =
      (own : Bytes)
      → b.is_used ≡ true
      → b.manifest.identifier ≡ some own
      → streq own identifier ≡ false

  abbrev pub Found : List (AppBundle Entry) → ℕ → ℕ → Bytes → Option ℕ → Type 0
  Found apps rounds i identifier none =
      (k : ℕ) → k < rounds → Other (get_or apps k zero_bundle) identifier
  Found apps rounds i identifier (some j) =
      (k : ℕ) × (own : Bytes) × (entry : Entry) × (j ≡ i + k)
      × (k < rounds)
      × Matches (get_or apps k zero_bundle) identifier own entry

  Found-there :
      (b : AppBundle Entry) (apps : List (AppBundle Entry)) (rounds i : ℕ) (identifier : Bytes)
      (o : Option ℕ)
      → Other b identifier
      → Found apps rounds (i + 1) identifier o
      → Found (b ∷ apps) (suc rounds) i identifier o
  Found-there b apps rounds i identifier none other found = λ k lt. first k lt
    where
      first : (k : ℕ) → k < suc rounds → Other (get_or (b ∷ apps) k zero_bundle) identifier
      first zero lt = other
      first (suc k) lt = found k (omega arith)
  Found-there b apps rounds i identifier (some j) other (k, own, entry, at, lt, matches) =
      (suc k, own, entry, omega arith, omega arith, matches)

  pub find_app-Found :
      (apps : List (AppBundle Entry)) (rounds i : ℕ) (identifier : Bytes)
      → All IsReady apps
      → (o : Option ℕ) × (find_app apps rounds i identifier ≡ some o)
        × Found apps rounds i identifier o
  unfolding find_app is_registered
  find_app-Found [] rounds i identifier ready =
      (none, refl, λ k lt own used named. absurd (ground (arith, used)))
  find_app-Found (b ∷ apps) zero i identifier ready = (none, refl, λ k lt. absurd (omega arith))
  find_app-Found (b ∷ apps) (suc rounds) i identifier ready =
      let (o, run, found) = find_app-Found apps rounds (i + 1) identifier (ready.1) in
      elim (ready.0) [
        | inl unused ↦
            let others : Other b identifier =
              λ own used named. absurd (ground (arith, unused, used)) in
            (o, rw unused run, Found-there b apps rounds i identifier o others found)
        | inr (own, entry, used, named, starts) ↦ elim (Bool-cases (streq own identifier)) [
          | inl same ↦ (
            some i,
            rw (used, named, same) refl,
            (
              0,
              own,
              entry,
              omega arith,
              omega arith,
              record { used = used; named = named; same = same; starts = starts },
            ),
          )
          | inr other ↦
              let others : Other b identifier = λ own' _ named'.
                let same : own ≡ own' = some-injective own own' (sym named ∙ named') in
                rw (← same) other in
              (
                o,
                rw (used, named, other) run,
                Found-there b apps rounds i identifier o others found,
              )
        ]
      ]

  pub init-IsValid : (m : AppManager Entry) → IsValid (init m)
  unfolding init
  init-IsValid m = record {
    size = length-replicate max_apps zero_bundle;
    counted = omega arith;
    ready = All-replicate IsReady max_apps zero_bundle (inl refl);
  }

  -- `register_app` does not fault on a valid table, and leaves one.
  pub register_app-IsValid :
      {m : AppManager Entry} (manifest : Option AppManifest) (entry : Option Entry)
      → IsValid m
      → (r : AppResult) × (m' : AppManager Entry) × (register_app m manifest entry ≡ some (r, m'))
        × IsValid m'
  unfolding register_app register_new
  register_app-IsValid {m} none entry v = (err_invalid, m, refl, v)
  register_app-IsValid {m} (some manifest) none v = (err_invalid, m, refl, v)
  register_app-IsValid {m} (some manifest) (some entry) v =
      elim (Option-cases manifest.identifier) [
        | inl null ↦ (err_invalid, m, rw null refl, v)
        | inr (own, named) ↦ elim (Bool-cases (leb max_apps m.app_count)) [
          | inl full ↦ (err_full, m, rw (named, full) refl, v)
          | inr room ↦
              let (o, run, _) = find_app-Found m.apps m.app_count 0 own v.ready in
              elim (Option-cases o) [
                | inl absent ↦
                    let b : AppBundle Entry = record {
                      manifest = manifest;
                      entry = some entry;
                      is_used = true;
                    } in
                    let lt : m.app_count < length m.apps = ground (arith, room, v.size) in
                    (
                      ok,
                      record { apps = set m.apps m.app_count b; app_count = m.app_count + 1 },
                      simp named
                          (rw (room, run, absent, store-eq_some m.apps m.app_count b lt) refl),
                      record {
                        size = length-set m.apps m.app_count b ∙ v.size;
                        counted = omega (arith, lt, v.size);
                        ready =
                            All-set IsReady m.apps m.app_count b v.ready
                              (inr (own, entry, refl, named, refl));
                      },
                    )
                | inr (i, there) ↦ (err_invalid, m, rw (named, room, run, there) refl, v)
              ]
        ]
      ]

  -- The entry points do not fault on the context of a bundle that is registered.
  abbrev pub Starts : (Entry → AppContext → Run Trace) → Type 0
  Starts enter =
      (entry : Entry) (context : AppContext) (own : Bytes)
      → context.manifest.identifier ≡ some own
      → (t : Trace) × (enter entry context ≡ some t)

  -- A bundle of the table was launched in its own sandbox, and its entry point was entered once.
  pub record Launched (enter : Entry → AppContext → Run Trace) (m : AppManager Entry)
      (identifier : Bytes) (run : Run (AppResult × Trace)) : Type 0 where
    pub index : ℕ
    pub below : index < m.app_count
    pub own : Bytes
    pub entry : Entry
    pub context : AppContext
    pub output : Trace
    pub matches : Matches (get_or m.apps index zero_bundle) identifier own entry
    pub sandboxed :
        app_context
          (get_or m.apps index zero_bundle).manifest
          identifier
          (replicate container_path_size 0)
        ≡ some context
    pub entered : enter entry context ≡ some output
    pub ran : run ≡ some (ok, banner (get_or m.apps index zero_bundle).manifest context ++ output)

  launch-Found :
      (enter : Entry → AppContext → Run Trace) {m : AppManager Entry} (identifier : Bytes)
      (o : Option ℕ)
      → Starts enter
      → find_app m.apps m.app_count 0 identifier ≡ some o
      → Found m.apps m.app_count 0 identifier o
      → (launch enter m identifier ≡ some (err_not_found, []))
          × ((k : ℕ) → k < m.app_count → Other (get_or m.apps k zero_bundle) identifier)
        ⊎ Launched enter m identifier (launch enter m identifier)
  unfolding launch launch_bundle app_context
  launch-Found enter identifier none starts run found = inl (rw run refl, found)
  launch-Found enter {m} identifier (some j) starts run (k, own, entry, at, lt, matches) =
      let b : AppBundle Entry = get_or m.apps k zero_bundle in
      let at_k : j ≡ k = omega (arith, at) in
      let (path, built, _, _) =
        build_container_path_lem identifier (replicate container_path_size 0)
          (length-replicate container_path_size 0) in
      let context : AppContext = record {
        manifest = b.manifest;
        sandbox = record {
          container_path = path;
          granted_permissions = default_allowed_permissions b.manifest.requested_permissions;
        };
      } in
      let (t, entered) = starts entry context own matches.named in
      inr (record {
        index = k;
        below = lt;
        own = own;
        entry = entry;
        context = context;
        output = t;
        matches = matches;
        sandboxed = rw built refl;
        entered = entered;
        ran = rw (run, at_k, built, matches.starts, entered) refl;
      })

  -- `launch` does not fault on a valid table. No bundle of the table is in use under the identifier, and
  -- it returns `err_not_found` and prints nothing; or it prints the banner and then enters the entry
  -- point of a bundle that is, once, in a context whose container path and permissions are made for it.
  pub launch_lem :
      (enter : Entry → AppContext → Run Trace) {m : AppManager Entry} (identifier : Bytes)
      → Starts enter
      → IsValid m
      → (launch enter m identifier ≡ some (err_not_found, []))
          × ((k : ℕ) → k < m.app_count → Other (get_or m.apps k zero_bundle) identifier)
        ⊎ Launched enter m identifier (launch enter m identifier)
  launch_lem enter {m} identifier starts v =
      let (o, run, found) = find_app-Found m.apps m.app_count 0 identifier v.ready in
      launch-Found enter identifier o starts run found
