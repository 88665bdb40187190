-- ===== src/App/Tests.antt =====
-- The applications at concrete inputs.
use xbt_os_misaka.App.{
  zero_bundle, AppContext, AppManager, AppManifest, AppPermission, app_context, applications,
  build_container_path, container_path_size, copy_identifier, copy_prefix,
  default_allowed_permissions, end_path, err_not_found, has_permission, launch, permission_bits,
}
use xbt_os_misaka.App
use xbt_os_misaka.App.Container.{build_container_path_lem, extension, slashes}
use xbt_os_misaka.App.Launch.{launch-register}
use xbt_os_misaka.App.Permission.{has_permission_iff}
use xbt_os_misaka.App.Registry.{
  Launched, Other, Starts, launch_lem, init-IsValid, register_app-IsValid, IsValid,
}
use xbt_os_misaka.Console.{Trace, bytes, print}
use xbt_os_misaka.KString.{Bytes, text}
use xbt_os_misaka.Prelude.{
  ℕ, get_or, ◌+◌, ◌<◌, ◌≡◌, ◌↔◌, ◌⊎◌, refl, true, some, Run, [], ◌∷◌, ◌++◌, arith, bit, mask,
  length, length-replicate, replicate, take,
}

abbrev demo_id : Bytes
demo_id = b'a' ∷ b'.' ∷ b'b' ∷ []

abbrev blank : Bytes
blank = replicate container_path_size 0

build_container_path_lem_example :
    (path : Bytes) × (build_container_path (some demo_id) blank container_path_size ≡ some path)
    × (text path
        ≡ take 63 (applications ++ slashes (text demo_id))
          ++ extension (14 + length (text demo_id)) 63)
    × (length path ≡ container_path_size)
build_container_path_lem_example =
    build_container_path_lem demo_id blank (length-replicate container_path_size 0)

demo_path : Bytes
demo_path = (build_container_path_lem demo_id blank (length-replicate container_path_size 0)).0

demo_path-text : text demo_path ≡ bytes "/Applications/a/b.app"
unfolding demo_path text bytes
demo_path-text = (build_container_path_lem demo_id blank (length-replicate container_path_size 0)).2

-- Asks for the console and the network.
abbrev greedy : AppManifest
greedy = record {
  identifier = some demo_id;
  display_name = [];
  version = [];
  requested_permissions = 9;
}

abbrev greedy_context : AppContext
greedy_context = record {
  manifest = greedy;
  sandbox = record {
    container_path = demo_path;
    granted_permissions = default_allowed_permissions 9;
  };
}

greedy_run : app_context greedy demo_id blank ≡ some greedy_context
unfolding demo_path app_context
greedy_run =
    rw ((build_container_path_lem demo_id blank (length-replicate container_path_size 0)).1) refl

has_permission_iff_example :
    (has_permission (some greedy_context) (mask 3) ≡ true) ↔ ((3 < 3) × (bit 9 3 ≡ 1))
has_permission_iff_example =
    has_permission_iff greedy demo_id blank 3 (omega arith) greedy_run (omega arith)

-- The only entry point prints a greeting.
data Entry : Type 0 where
  hello : Entry

abbrev greet : Entry → AppContext → Run Trace
greet hello context = some (print "hello")

registered :
    (r : App.AppResult) × (m : AppManager Entry) × (App.register_app
        (App.init (record { apps = []; app_count = 0 }))
        (some greedy)
        (some hello)
      ≡ some (r, m))
    × IsValid m
registered =
    register_app-IsValid (some greedy) (some hello)
      (init-IsValid (record { apps = []; app_count = 0 }))

table : AppManager Entry
table = registered.1

table-IsValid : IsValid table
unfolding table
table-IsValid = registered.3

greet-Starts : Starts greet
greet-Starts hello context own named = (print "hello", refl)

launch_lem_example :
    (launch greet table demo_id ≡ some (err_not_found, []))
      × ((k : ℕ) → k < table.app_count → Other (get_or table.apps k zero_bundle) demo_id)
    ⊎ Launched greet table demo_id (launch greet table demo_id)
launch_lem_example = launch_lem greet demo_id greet-Starts table-IsValid

abbrev no_apps : AppManager Entry
no_apps = App.init (record { apps = []; app_count = 0 })

launch-register_example :
    (m' : AppManager Entry) × (launched : Launched greet m' demo_id (launch greet m' demo_id))
    × (App.register_app no_apps (some greedy) (some hello) ≡ some (App.ok, m'))
    × (launched.index ≡ no_apps.app_count)
    × (get_or m'.apps no_apps.app_count zero_bundle
        ≡ record { manifest = greedy; entry = some hello; is_used = true })
unfolding App.init
launch-register_example =
    launch-register greet greedy hello greet-Starts
      (init-IsValid (record { apps = []; app_count = 0 })) refl (omega arith)
      (λ k lt. absurd (omega (arith, lt)))
