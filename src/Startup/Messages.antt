-- ===== src/Startup/Messages.antt =====
-- kernel/i18n/i18n.cpp: the code points of the messages.
use Prim.Native.Char.{code}
use Prim.Native.String.{String}
use xbt_os_misaka.Console.{bytes, utf8}
use xbt_os_misaka.I18n.{Language, MessageId, chinese_messages, en, english_messages, message, zh_cn}
use xbt_os_misaka.I18n
use xbt_os_misaka.Prelude.{
  ℕ, ◌≡◌, ap, refl, All, List, [], ◌∷◌, ◌++◌, Bool, true, ◌&&◌, not, ◌==◌, ltb, arith,
}
use xbt_os_misaka.Vga.Utf8.{IsScalar, encode}

-- The code points of a literal.
unfoldable pub codes : String → List ℕ
codes String.[] = []
codes (String.◌∷◌ c s) = code c ∷ codes s

pub bytes-encode : (s : String) → bytes s ≡ encode (codes s)
unfolding bytes codes
bytes-encode String.[] = refl
bytes-encode (String.◌∷◌ c s) = ap (λ r. utf8 (code c) ++ r) (bytes-encode s)

are_scalars : List ℕ → Bool
are_scalars [] = true
are_scalars (c ∷ cs) = (not (c == 0) && ltb c 0x110000) && are_scalars cs

are_scalars_lem : (cs : List ℕ) → are_scalars cs ≡ true → All IsScalar cs
unfolding are_scalars
are_scalars_lem [] h = tt
are_scalars_lem (c ∷ cs) h = ((ground arith, ground arith), are_scalars_lem cs (ground arith))

-- The text of a message.
abbrev pub literal : Language → MessageId → String
literal en id = english_messages id
literal zh_cn id = chinese_messages id

english_scalars : (id : MessageId) → are_scalars (codes (english_messages id)) ≡ true
unfolding codes are_scalars
english_scalars I18n.welcome = refl
english_scalars _ = refl

chinese_scalars : (id : MessageId) → are_scalars (codes (chinese_messages id)) ≡ true
unfolding codes are_scalars
chinese_scalars I18n.welcome = refl
chinese_scalars _ = refl

-- Every message is the UTF-8 of its code points, none of which is 0.
pub message-encode :
    (language : Language) (id : MessageId)
    → (message language id ≡ encode (codes (literal language id)))
      × All IsScalar (codes (literal language id))
unfolding message
message-encode en id = (
  bytes-encode (english_messages id),
  are_scalars_lem (codes (english_messages id)) (english_scalars id),
)
message-encode zh_cn id = (
  bytes-encode (chinese_messages id),
  are_scalars_lem (codes (chinese_messages id)) (chinese_scalars id),
)
