-- ===== src/App.antt =====
-- kernel/app/app.h and kernel/app/app.cpp: the applications, their permissions and their containers.
-- An `AppEntryPoint` is a value of the type `Entry`; `none` is a null pointer.
pub mod Permission
pub mod Container
pub mod Registry
pub mod Launch
mod Tests
use mathlib.Core.Option
use xbt_os_misaka.Prelude.{
  ℕ, zero, suc, ◌+◌, ◌%◌, ◌^◌, Bool, true, false, ◌&&◌, not, Option, none, some, List, [], ◌∷◌,
  ◌++◌, ◌==◌, ltb, leb, if◌then◌else◌, Run, ◌>>=◌, store, get_or, replicate, bit_and, bit_or,
}
use xbt_os_misaka.Console.{Trace, bytes, print, print_string}
use xbt_os_misaka.KString.{Bytes, keep, poke, streq}

pub data AppPermission : Type 0 where
  no_permission console file_read file_write network hardware process : AppPermission

-- The values of the enumeration.
abbrev pub permission_bits : AppPermission → ℕ
permission_bits no_permission = 0
permission_bits console = 1
permission_bits file_read = 2
permission_bits file_write = 4
permission_bits network = 8
permission_bits hardware = 16
permission_bits process = 32

pub data AppResult : Type 0 where
  ok err_invalid err_denied err_not_found err_full : AppResult

-- The display name and the version are not null.
pub record AppManifest : Type 0 where
  pub identifier : Option Bytes
  pub display_name : Bytes
  pub version : Bytes
  pub requested_permissions : ℕ

pub record AppSandbox : Type 0 where
  pub container_path : Bytes
  pub granted_permissions : ℕ

pub record AppContext : Type 0 where
  pub manifest : AppManifest
  pub sandbox : AppSandbox

abbrev pub max_apps : ℕ
max_apps = 16

abbrev pub container_path_size : ℕ
container_path_size = 64

abbrev pub safe_permissions : ℕ
safe_permissions =
    bit_or (bit_or (permission_bits console) (permission_bits file_read))
      (permission_bits file_write)

unfoldable pub default_allowed_permissions : ℕ → ℕ
default_allowed_permissions requested = bit_and requested safe_permissions

-- A context that is `none` is a null pointer.
unfoldable pub has_permission : Option AppContext → ℕ → Bool
has_permission none permission = false
has_permission (some context) permission =
    bit_and context.sandbox.granted_permissions permission == permission

-- Writes through a pointer that moves on.
put_bytes : Bytes → Bytes → Run Bytes
put_bytes [] out = some out
put_bytes (c ∷ s) [] = none
put_bytes (c ∷ s) (_ ∷ out) = keep c (put_bytes s out)

-- The end of `build_container_path`, at `out_path + pos`.
unfoldable pub end_path : Bytes → ℕ → ℕ → Run Bytes
unfolding put_bytes
end_path out pos out_size =
    if ltb ((pos + 5) % 2 ^ 32) out_size
    then put_bytes (b'.' ∷ b'a' ∷ b'p' ∷ b'p' ∷ 0 ∷ []) out
    else poke 0 out

abbrev pub path_byte : ℕ → ℕ
path_byte c = if c == b'.' then b'/' else c

-- The loop over the identifier, at `out_path + pos`.
unfoldable pub copy_identifier : Bytes → Bytes → ℕ → ℕ → Run Bytes
copy_identifier [] out pos out_size = end_path out pos out_size
copy_identifier (c ∷ identifier) [] pos out_size =
    if not (c == 0) && ltb (pos + 1) out_size then none else end_path [] pos out_size
copy_identifier (c ∷ identifier) (o ∷ out) pos out_size =
    let next = keep (path_byte c) (copy_identifier identifier out (pos + 1) out_size) in
    if not (c == 0) && ltb (pos + 1) out_size then next else end_path (o ∷ out) pos out_size

-- The loop over the prefix, and what follows it.
unfoldable pub copy_prefix : Bytes → Bytes → Bytes → ℕ → ℕ → Run Bytes
unfolding copy_identifier
copy_prefix [] identifier out pos out_size = copy_identifier identifier out pos out_size
copy_prefix (c ∷ prefix) identifier [] pos out_size =
    if ltb (pos + 1) out_size then none else copy_identifier identifier [] pos out_size
copy_prefix (c ∷ prefix) identifier (o ∷ out) pos out_size =
    let next = keep c (copy_prefix prefix identifier out (pos + 1) out_size) in
    if ltb (pos + 1) out_size then next else copy_identifier identifier (o ∷ out) pos out_size

abbrev pub applications : Bytes
applications =
    b'/' ∷ b'A' ∷ b'p' ∷ b'p' ∷ b'l' ∷ b'i' ∷ b'c' ∷ b'a' ∷ b't' ∷ b'i' ∷ b'o' ∷ b'n' ∷ b's' ∷ b'/'
    ∷ []

-- The buffer `out_path` after the call.
unfoldable pub build_container_path : Option Bytes → Bytes → ℕ → Run Bytes
build_container_path identifier out_path out_size =
    copy_prefix applications (Option.get_or identifier []) out_path 0 out_size

pub record AppBundle (Entry : Type 0) : Type 0 where
  pub manifest : AppManifest
  pub entry : Option Entry
  pub is_used : Bool

pub record AppManager (Entry : Type 0) : Type 0 where
  pub apps : List (AppBundle Entry)
  pub app_count : ℕ

abbrev pub zero_bundle : {Entry : Type 0} → AppBundle Entry
zero_bundle = record {
  manifest = record {
    identifier = none;
    display_name = [];
    version = [];
    requested_permissions = 0;
  };
  entry = none;
  is_used = false;
}

-- The state after `init`, whatever it was before.
unfoldable pub init : {Entry : Type 0} → AppManager Entry → AppManager Entry
init _ = record { apps = replicate max_apps zero_bundle; app_count = 0 }

-- The test of both loops. A comparison with a null pointer is a fault.
unfoldable pub is_registered : {Entry : Type 0} → AppBundle Entry → Bytes → Run Bool
is_registered b identifier =
    if b.is_used then (do own ← b.manifest.identifier; some (streq own identifier)) else some false

-- The loops at `apps + i`, with the rounds that are left: the first bundle with the identifier.
unfoldable pub find_app : {Entry : Type 0} → List (AppBundle Entry) → ℕ → ℕ → Bytes → Run (Option ℕ)
unfolding is_registered
find_app [] rounds i identifier = some none
find_app (b ∷ apps) zero i identifier = some none
find_app (b ∷ apps) (suc rounds) i identifier = do
  let rest = find_app apps rounds (i + 1) identifier
  registered ← is_registered b identifier
  if registered then some (some i) else rest

-- `register_app` behind its first test, with the fields of the arguments that are not null.
unfoldable pub register_new :
    {Entry : Type 0}
    → AppManager Entry
    → AppManifest
    → Bytes
    → Entry
    → Run (AppResult × AppManager Entry)
register_new m manifest identifier entry =
    if leb max_apps m.app_count then some (err_full, m) else (do
      found ← find_app m.apps m.app_count 0 identifier
      elim found [
        | some _ ↦ some (err_invalid, m)
        | none ↦ do
          apps ←
              store m.apps m.app_count
                (record { manifest = manifest; entry = some entry; is_used = true })
          some (ok, record { apps = apps; app_count = m.app_count + 1 })
      ])

unfoldable pub register_app :
    {Entry : Type 0}
    → AppManager Entry
    → Option AppManifest
    → Option Entry
    → Run (AppResult × AppManager Entry)
unfolding register_new
register_app m none entry = some (err_invalid, m)
register_app m (some manifest) none = some (err_invalid, m)
register_app m (some manifest) (some entry) = elim manifest.identifier [
  | none ↦ some (err_invalid, m)
  | some identifier ↦ register_new m manifest identifier entry
]

-- The context that `launch` hands to the entry point. `path` is what the local buffer holds before.
unfoldable pub app_context : AppManifest → Bytes → Bytes → Run AppContext
app_context manifest identifier path = do
  container ← build_container_path (some identifier) path container_path_size
  some (record {
    manifest = manifest;
    sandbox = record {
      container_path = container;
      granted_permissions = default_allowed_permissions manifest.requested_permissions;
    };
  })

module _ {Entry : Type 0} (enter : Entry → AppContext → Run Trace) where
  -- The body of the loop of `launch` at the bundle with the identifier.
  unfoldable pub launch_bundle : AppBundle Entry → Bytes → Run (AppResult × Trace)
  launch_bundle b identifier = do
    context ← app_context b.manifest identifier (replicate container_path_size 0)
    entry ← b.entry
    output ← enter entry context
    some (
      ok,
      print "Launching app: "
          ++ print_string b.manifest.display_name
          ++ print "\nSandbox: "
          ++ print_string context.sandbox.container_path
          ++ print "\n"
          ++ output,
    )

  unfoldable pub launch : AppManager Entry → Bytes → Run (AppResult × Trace)
  unfolding launch_bundle
  launch m identifier = do
    found ← find_app m.apps m.app_count 0 identifier
    elim found [
      | none ↦ some (err_not_found, [])
      | some i ↦ launch_bundle (get_or m.apps i zero_bundle) identifier
    ]
