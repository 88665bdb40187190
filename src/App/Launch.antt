-- ===== src/App/Launch.antt =====
-- An application that was registered can be launched.
use xbt_os_misaka.App.{
  AppBundle, AppContext, AppManager, AppManifest, find_app, launch, max_apps, ok, register_app,
  register_new, zero_bundle,
}
use xbt_os_misaka.App.Registry.{
  IsReady, Found, IsValid, Launched, Other, Starts, find_app-Found, launch_lem,
}
use xbt_os_misaka.Console.{Trace}
use xbt_os_misaka.KString.{Bytes}
use xbt_os_misaka.KString.Compare.{streq_refl}
use xbt_os_misaka.Prelude.{
  All-set, ℕ, ◌+◌, ◌<◌, ◌≡◌, ◌∙◌, inl, inr, refl, none, some, sym, ap, Option, Run, Bool, true,
  false, ◌==◌, ==_iff, if◌then◌else◌, arith, get_or, get_or-set, leb, length, length-set, set,
  store-eq_some, Bool-cases,
}

module _ {Entry : Type 0} where
  -- A name that no bundle is in use under is not found.
  find_app-eq_none :
      {m : AppManager Entry} (own : Bytes)
      → IsValid m
      → ((k : ℕ) → k < m.app_count → Other (get_or m.apps k zero_bundle) own)
      → find_app m.apps m.app_count 0 own ≡ some none
  find_app-eq_none {m} own v others =
      let (o, run, found) = find_app-Found m.apps m.app_count 0 own v.ready in go o run found
    where
      go :
          (o : Option ℕ)
          → find_app m.apps m.app_count 0 own ≡ some o
          → Found m.apps m.app_count 0 own o
          → find_app m.apps m.app_count 0 own ≡ some none
      go none run found = run
      go (some j) run (k, named, entry, at, lt, matches) =
          let other = others k lt named matches.used matches.named in
          absurd (ground (arith, other, matches.same))

  -- A manifest whose identifier no bundle is in use under is registered, if there is room, in the next
  -- place of the table. Launching the identifier then enters the bundle at that place, which is the one
  -- that was registered.
  pub launch-register :
      (enter : Entry → AppContext → Run Trace) {m : AppManager Entry} (manifest : AppManifest)
      (entry : Entry) {own : Bytes}
      → Starts enter
      → IsValid m
      → manifest.identifier ≡ some own
      → m.app_count < max_apps
      → ((k : ℕ) → k < m.app_count → Other (get_or m.apps k zero_bundle) own)
      → (m' : AppManager Entry) × (launched : Launched enter m' own (launch enter m' own))
        × (register_app m (some manifest) (some entry) ≡ some (ok, m'))
        × (launched.index ≡ m.app_count)
        × (get_or m'.apps m.app_count zero_bundle
            ≡ record { manifest = manifest; entry = some entry; is_used = true })
  unfolding register_app register_new
  launch-register enter {m} manifest entry {own} starts v named room others =
      let b : AppBundle Entry = record {
        manifest = manifest;
        entry = some entry;
        is_used = true;
      } in
      let lt : m.app_count < length m.apps = omega (arith, room, v.size) in
      let m' : AppManager Entry = record {
        apps = set m.apps m.app_count b;
        app_count = m.app_count + 1;
      } in
      let at : (k : ℕ)
          → get_or m'.apps k zero_bundle
            ≡ (if m.app_count == k then b else get_or m.apps k zero_bundle) =
        λ k. get_or-set m.apps m.app_count k b zero_bundle lt in
      let here : get_or m'.apps m.app_count zero_bundle ≡ b =
        at m.app_count
        ∙ ap (λ (t : Bool). if t then b else get_or m.apps m.app_count zero_bundle)
            ((==_iff m.app_count m.app_count).1 refl) in
      let v' : IsValid m' = record {
        size = length-set m.apps m.app_count b ∙ v.size;
        counted = omega (arith, room);
        ready = All-set IsReady m.apps m.app_count b v.ready (inr (own, entry, refl, named, refl));
      } in
      let small : leb max_apps m.app_count ≡ false = ground (arith, room) in
      let run : register_app m (some manifest) (some entry) ≡ some (ok, m') =
        simp named
          (rw (small, find_app-eq_none own v others, store-eq_some m.apps m.app_count b lt) refl) in
      elim (launch_lem enter own starts v') [
        | inl absent ↦
            let other =
              absent.1 m.app_count (omega arith) own (ap (λ x. x.is_used) here)
                (ap (λ x. x.manifest.identifier) here ∙ named) in
            absurd (ground (arith, other, streq_refl own))
        | inr launched ↦
            let index : launched.index ≡ m.app_count =
              elim (Bool-cases (m.app_count == launched.index)) [
                | inl e ↦ sym ((==_iff m.app_count launched.index).0 e)
                | inr e ↦
                    let old : get_or m'.apps launched.index zero_bundle
                        ≡ get_or m.apps launched.index zero_bundle =
                      at launched.index
                      ∙ ap (λ (t : Bool). if t then b else get_or m.apps launched.index zero_bundle)
                          e in
                    let below : launched.index < m.app_count = ground (arith, e, launched.below) in
                    let other =
                      others launched.index below launched.own
                        (sym (ap (λ x. x.is_used) old) ∙ launched.matches.used)
                        (sym (ap (λ x. x.manifest.identifier) old) ∙ launched.matches.named) in
                    absurd (ground (arith, other, launched.matches.same))
              ] in
            (m', launched, run, index, here)
      ]
