-- ===== src/App/Permission.antt =====
-- The permissions of an application: what it asked for, less what is not safe.
use mathlib.Core.Option
use xbt_os_misaka.App.{
  AppContext, AppManifest, app_context, default_allowed_permissions, has_permission,
}
use xbt_os_misaka.KString.{Bytes}
use xbt_os_misaka.Prelude.{
  ℕ, zero, suc, ◌^◌, ◌<◌, ◌≡◌, ◌↔◌, ◌∙◌, refl, sym, ap, true, some, none, ◌==◌, ==_iff, arith, bit,
  mask, bit-bit_and, bit-mask, bit-injective, bit_and-le, bit_and, mask-lt, bit-lt, bit_of_zero,
  Run, ◌>>=◌, min, if◌then◌else◌, ltb,
}

-- A bit is set in a word when the word has all of its mask.
has_mask : (g k : ℕ) → g < 2 ^ 32 → k < 32 → ((bit_and g (mask k) == mask k) ≡ true) ↔ (bit g k ≡ 1)
has_mask g k g_lt k_lt = (
  λ same.
      let at_k : bit (bit_and g (mask k)) k ≡ bit (mask k) k =
        ap (λ w. bit w k) ((==_iff _ _).0 same) in
      ground (arith, at_k, bit-bit_and k g (mask k), bit-mask k k, bit-lt g k),
  λ on. (==_iff _ _).1 (
      bit-injective 32 _ _ (omega (arith, bit_and-le 32 g (mask k) g_lt)) (mask-lt 32 k k_lt)
        (λ j j_lt. ground (arith, on, bit-bit_and j g (mask k), bit-mask k j))),
)

safe-bit : (k : ℕ) → bit 7 k ≡ (if ltb k 3 then 1 else 0)
unfolding bit
safe-bit zero = refl
safe-bit (suc zero) = refl
safe-bit (suc (suc zero)) = refl
safe-bit (suc (suc (suc k))) = rw (bit_of_zero k) (ground arith)

context_of :
    (manifest : AppManifest) (container : Run Bytes) {context : AppContext}
    → (container >>= λ c. some (record {
      manifest = manifest;
      sandbox = record {
        container_path = c;
        granted_permissions = default_allowed_permissions manifest.requested_permissions;
      };
    }))
      ≡ some context
    → context.sandbox.granted_permissions
      ≡ default_allowed_permissions manifest.requested_permissions
context_of manifest none run = absurd (ground (arith, run))
context_of manifest (some c) {context} run =
    sym (ap (λ o. (Option.get_or o context).sandbox.granted_permissions) run)

-- A launched application has a permission exactly when its manifest asks for it and it is one of the
-- first three: the console, reading files, and writing files.
pub has_permission_iff :
    (manifest : AppManifest) (identifier path : Bytes) {context : AppContext} (k : ℕ)
    → manifest.requested_permissions < 2 ^ 32
    → app_context manifest identifier path ≡ some context
    → k < 32
    → (has_permission (some context) (mask k) ≡ true)
      ↔ ((k < 3) × (bit manifest.requested_permissions k ≡ 1))
unfolding has_permission app_context default_allowed_permissions
has_permission_iff manifest identifier path {context} k asked run k_lt =
    let requested = manifest.requested_permissions in
    let granted = context.sandbox.granted_permissions in
    let same : granted ≡ bit_and requested 7 = context_of manifest _ run in
    let at_k : bit granted k ≡ min (bit requested k) (bit 7 k) =
      ap (λ w. bit w k) same ∙ bit-bit_and k requested 7 in
    let (there, back) =
      has_mask granted k (omega (arith, same, bit_and-le 32 requested 7 asked)) k_lt in
    (
      λ has.
          let on = there has in
          (
            ground (arith, on, at_k, safe-bit k, bit-lt requested k),
            ground (arith, on, at_k, safe-bit k, bit-lt requested k),
          ),
      λ both. back (ground (arith, both, at_k, safe-bit k)),
    )
