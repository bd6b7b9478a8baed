-- ===== src/Relocate/ClassFile.antt =====
-- src/relocate.rs, `class_file`: the constant pool of a class file relocated.
use jrs.Prelude.{
  ℕ, zero, suc, Bool, true, false, ◌==◌, nat_eq, list_eq, option_eq, Option, none, some, List, ◌∷◌,
  [], ◌++◌, if◌then◌else◌, length, drop, ◌-◌, ◌+◌, ◌*◌, ◌/◌, ◌%◌, ltb, leb, get_elem?, any,
}
use jrs.Relocate.{Bytes, Rule, constant}
use jrs.Relocate.Rewrite.{rewrite, between, or_nothing}

-- Why a class file is not read.
pub data Refusal : Type 0 where
  bad_magic truncated : Refusal
  too_long : Bytes → Refusal
  unknown_tag : ℕ → Refusal

pub data Outcome {κ} (Value : Type κ) : Type κ where
  refused : Refusal → Outcome Value
  done : Value → Outcome Value

abbrev pub ok_or {κ} : {Value : Type κ} → Option Value → Refusal → Outcome Value
ok_or (some value) problem = done value
ok_or none problem = refused problem

-- `?`: the first refusal is the result.
infixl 1 ◌>>=◌
abbrev pub ◌>>=◌ {κ ℓ} :
    {Value : Type κ} {Next : Type ℓ} → Outcome Value → (Value → Outcome Next) → Outcome Next
refused problem >>= next = refused problem
done value >>= next = next value

-- `u16::from_be_bytes`.
unfoldable pub u16_at : Bytes → ℕ → Option ℕ
u16_at bytes at = elim (get_elem? bytes at) [
  | none ↦ none
  | some high ↦ elim (get_elem? bytes (at + 1)) [ none ↦ none | some low ↦ some (high * 256 + low) ]
]

-- `bytes.get(from..to)`.
abbrev slice : ℕ → ℕ → Bytes → Option Bytes
slice from to bytes = if leb to (length bytes) then some (between from to bytes) else none

-- The variables of the loop over the pool. `second` says that the next slot is a Long's or a
-- Double's second one, which `index += 1` passes over.
pub record Pool : Type 0 where
  pub out : Option Bytes
  pub copied : ℕ
  pub at : ℕ
  pub second : Bool

-- The text of a `CONSTANT_Utf8` entry: kept as it is, or relocated.
unfoldable pub utf8_with : Bytes → Pool → Bytes → Option Bytes → Outcome Pool
utf8_with bytes s content none = done (record s { at = s.at + (3 + length content) })
utf8_with bytes s content (some relocated) =
    if leb (length relocated) 65535
    then done (record s {
      out = some (
          or_nothing s.out
          ++ (between s.copied s.at bytes
              ++ 1 ∷ length relocated / 256 ∷ length relocated % 256 ∷ relocated));
      copied = s.at + (3 + length content);
      at = s.at + (3 + length content);
    })
    else refused (too_long content)

unfoldable pub utf8 : List Rule → Bytes → Pool → Outcome Pool
unfolding utf8_with
utf8 rules bytes s = ok_or (u16_at bytes (s.at + 1)) truncated >>= λ len.
    ok_or (slice (s.at + 3) (s.at + 3 + len) bytes) truncated >>= λ content.
    utf8_with bytes s content (rewrite rules content constant)

-- The size of an entry of another tag, and whether it takes two slots.
unfoldable pub size_of : ℕ → Option (ℕ × Bool)
size_of tag =
    if any (λ t. t == tag) (7 ∷ 8 ∷ 16 ∷ 19 ∷ 20 ∷ [])
    then some (3, false)
    else if tag == 15
    then some (4, false)
    else if any (λ t. t == tag) (3 ∷ 4 ∷ 9 ∷ 10 ∷ 11 ∷ 12 ∷ 17 ∷ 18 ∷ [])
    then some (5, false)
    else if any (λ t. t == tag) (5 ∷ 6 ∷ [])
    then some (9, true)
    else none

unfoldable pub entry_at : List Rule → Bytes → Pool → ℕ → Outcome Pool
unfolding utf8
entry_at rules bytes s tag =
    if tag == 1
    then utf8 rules bytes s
    else (ok_or (size_of tag) (unknown_tag tag) >>= λ (size, two).
        done (record s { at = s.at + size; second = two }))

-- One slot of the pool.
unfoldable pub slot : List Rule → Bytes → Pool → Outcome Pool
unfolding entry_at
slot rules bytes s =
    if s.second
    then done (record s { second = false })
    else (ok_or (get_elem? bytes s.at) truncated >>= λ tag. entry_at rules bytes s tag)

-- The `while` loop, over the slots that are left.
unfoldable pub pool : ℕ → List Rule → Bytes → Pool → Outcome Pool
unfolding slot
pool zero rules bytes s = done s
pool (suc left) rules bytes s = slot rules bytes s >>= λ s'. pool left rules bytes s'

abbrev pub start : Pool
start = record { out = none; copied = 0; at = 10; second = false }

unfoldable pub finish : Bytes → Pool → Outcome Bytes
finish bytes s =
    if ltb (length bytes) s.at
    then refused truncated
    else done (elim s.out [ none ↦ bytes | some o ↦ o ++ drop s.copied bytes ])

abbrev magic : Bytes
magic = 0xCA ∷ 0xFE ∷ 0xBA ∷ 0xBE ∷ []

unfoldable pub class_file : List Rule → Bytes → Outcome Bytes
unfolding pool finish
class_file [] bytes = done bytes
class_file (r ∷ rs) bytes =
    if slice 0 4 bytes == some magic
    then (ok_or (u16_at bytes 8) truncated >>= λ count.
        pool (count - 1) (r ∷ rs) bytes start >>= λ s. finish bytes s)
    else refused bad_magic
