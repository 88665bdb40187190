-- ===== src/Boot.antt =====
-- boot/uefi/bootx64.c: the UEFI loader. The firmware is a parameter: what its console makes of a text,
-- with the status that it returns. The handle of the image is not used.
mod Tests
use Prim.Native.Char.{code}
use Prim.Native.String.{String}
use xbt_os_misaka.Prelude.{
  ℕ, zero, suc, ◌+◌, ◌-◌, ◌/◌, ◌%◌, ◌<◌, ◌≡◌, ◌≢◌, refl, All, List, [], ◌∷◌, ◌++◌, ltb,
  if◌then◌else◌, arith,
}

-- A string of `CHAR16`; where the list ends stands the NUL.
abbrev pub Wide : Type 0
Wide = List ℕ

-- The UTF-16 units of a string literal.
unfoldable pub wide : String → Wide
wide String.[] = []
wide (String.◌∷◌ c s) =
    (if ltb (code c) 0x10000
      then code c ∷ []
      else (0xD800 + (code c - 0x10000) / 0x400) ∷ (0xDC00 + code c % 0x400) ∷ [])
    ++ wide s

abbrev pub efi_load_error : ℕ
efi_load_error = 0x8000_0000_0000_0001

module _ {Firmware : Type 0} (output_string : Wide → Firmware → ℕ × Firmware) where
  -- The status of `output_string` is dropped.
  abbrev pub uefi_print : Wide → Firmware → Firmware
  uefi_print text f = (output_string text f).1

  unfoldable pub efi_main : Firmware → ℕ × Firmware
  efi_main f =
      let f₁ = uefi_print (wide "XBTOS UEFI 引导程序\r\n") f in
      let f₂ = uefi_print (wide "当前版本已进入 UEFI 环境。\r\n") f₁ in
      let f₃ = uefi_print (wide "下一阶段需要 x86_64 内核入口或 ELF32 兼容跳板。\r\n") f₂ in
      let f₄ = uefi_print (wide "请使用 scripts\\build_iso_zh.ps1 生成 EFI/BOOT/BOOTX64.EFI。\r\n") f₃ in
      (efi_load_error, f₄)
