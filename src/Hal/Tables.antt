-- ===== src/Hal/Tables.antt =====
-- The two tables that `init` fills: the handlers and the gates.
use xbt_os_misaka.Hal.{Hal, Handler, IdtEntry, default_exception_handler, idt_set_gate}
use xbt_os_misaka.Hal.Devices.{register_exceptions, register_interrupt_handler, set_gates}
use xbt_os_misaka.Prelude.{
  ℕ, zero, suc, ◌+◌, ◌*◌, ◌/◌, ◌^◌, ◌≤◌, ◌<◌, ◌≡◌, ◌∙◌, refl, ap, Option, none, some, Bool, ◌&&◌,
  ltb, leb, if◌then◌else◌, List, load-eq_some, store-eq_some, length, length-set, get_or,
  get_or-set, set, arith, bit_and, bit_and_ones,
}

-- The table of handlers, with nothing at `n` where the table ends.
abbrev pub handler_of : Hal → ℕ → Option Handler
handler_of s n = get_or s.interrupt_handlers n none

-- A state that differs from `s` in its table of handlers only.
abbrev pub with_handlers : Hal → List (Option Handler) → Hal
with_handlers s handlers = record s { interrupt_handlers = handlers }

abbrev pub in_range : ℕ → ℕ → ℕ → Bool
in_range i rounds n = leb i n && ltb n (i + rounds)

-- The handlers of `rounds` exceptions from `i` on.
pub register_exceptions_lem :
    (rounds i : ℕ) (s : Hal)
    → i + rounds ≤ length s.interrupt_handlers
    → (handlers : List (Option Handler)) × (register_exceptions rounds i s
        ≡ some (with_handlers s handlers))
      × (length handlers ≡ length s.interrupt_handlers)
      × ((n : ℕ)
          → get_or handlers n none
            ≡ (if in_range i rounds n then some default_exception_handler else handler_of s n))
unfolding register_exceptions register_interrupt_handler
register_exceptions_lem zero i s le = (s.interrupt_handlers, refl, refl, λ n. ground arith)
register_exceptions_lem (suc rounds) i s le =
    let now = set s.interrupt_handlers i (some default_exception_handler) in
    let size : length now ≡ length s.interrupt_handlers =
      length-set s.interrupt_handlers i (some default_exception_handler) in
    let stored =
      store-eq_some s.interrupt_handlers i (some default_exception_handler) (omega (arith, le)) in
    let (handlers, run, n, at) =
      register_exceptions_lem rounds (i + 1) (with_handlers s now) (omega (arith, le, size)) in
    (
      handlers,
      rw stored run,
      n ∙ size,
      λ k. ground (
        arith,
        at k,
        get_or-set s.interrupt_handlers i k (some default_exception_handler) none
            (omega (arith, le)),
      ),
    )

-- A gate for the function at an address.
abbrev pub IsGate : IdtEntry → ℕ → Type 0
IsGate gate address =
    (gate.offset_low + 2 ^ 16 * gate.offset_high ≡ address)
    × (gate.selector ≡ 0x08)
    × (gate.always_zero ≡ 0)
    × (gate.type_attr ≡ 0x8E)

abbrev pub gate_for : ℕ → IdtEntry
gate_for address = record {
  offset_low = bit_and address 0xFFFF;
  selector = 0x08;
  always_zero = 0;
  type_attr = 0x8E;
  offset_high = bit_and (address / 2 ^ 16) 0xFFFF;
}

pub gate_for-IsGate : (address : ℕ) → address < 2 ^ 32 → IsGate (gate_for address) address
gate_for-IsGate address lt = (
  omega (arith, lt, bit_and_ones 16 address, bit_and_ones 16 (address / 2 ^ 16)),
  refl,
  refl,
  refl,
)

pub set_gates_lem :
    (stubs : List ℕ) (rounds i : ℕ) (idt : List IdtEntry) (blank : IdtEntry)
    → i + rounds ≤ length idt
    → length idt ≤ length stubs
    → (gates : List IdtEntry) × (set_gates stubs rounds i idt ≡ some gates)
      × ((n : ℕ)
          → get_or gates n blank
            ≡ (if in_range i rounds n then gate_for (get_or stubs n 0) else get_or idt n blank))
unfolding set_gates idt_set_gate
set_gates_lem stubs zero i idt blank le stubs_le = (idt, refl, λ n. ground arith)
set_gates_lem stubs (suc rounds) i idt blank le stubs_le =
    let gate = gate_for (get_or stubs i 0) in
    let now = set idt i gate in
    let loaded = load-eq_some stubs i 0 (omega (arith, le, stubs_le)) in
    let stored = store-eq_some idt i gate (omega (arith, le)) in
    let size : length now ≡ length idt = length-set idt i gate in
    let (gates, run, at) =
      set_gates_lem stubs rounds (i + 1) now blank (omega (arith, le, size))
        (omega (arith, stubs_le, size)) in
    (
      gates,
      rw (loaded, stored) run,
      λ k. ground (
        arith,
        at k,
        get_or-set idt i k gate blank (omega (arith, le)),
        λ (e : i ≡ k). ap (λ j. gate_for (get_or stubs j 0)) e,
      ),
    )
