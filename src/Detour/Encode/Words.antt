-- ===== src/Detour/Encode/Words.antt =====
-- What the encoded words are as numbers.
use Prim.Native.Nat.{bit_or}
use ps3_plugins.Base.{ℕ, zero, suc, ◌+◌, ◌*◌, ◌%◌, ◌^◌, ◌<◌, ◌≡◌, refl, ap, ◌∙◌, arith}
use ps3_plugins.Bits.{bit_or_field, bit_or_below}
use ps3_plugins.Detour.Encode.{
  with_fields, lis, mtctr, ori, bcctr, std, ld, addis, mtspr, spr_field, exopcode,
}

-- Opcode and two fields of five bits do not overlap.
with_fields_sum :
    (op a b : ℕ)
    → a < 32
    → b < 32
    → with_fields (op * 2 ^ 26) a b ≡ op * 2 ^ 26 + a * 2 ^ 21 + b * 2 ^ 16
with_fields_sum op a b ha hb =
    ap (λ t. bit_or t (b * 2 ^ 16)) (bit_or_field 26 op (a * 2 ^ 21) (omega arith) ∙ upper)
    ∙ bit_or_field 21 (op * 32 + a) (b * 2 ^ 16) (omega arith)
    ∙ omega arith
  where
    upper : op * 2 ^ 26 + a * 2 ^ 21 ≡ (op * 32 + a) * 2 ^ 21
    upper = omega arith

immediate_sum :
    (op a b imm : ℕ)
    → a < 32
    → b < 32
    → imm < 2 ^ 16
    → bit_or (with_fields (op * 2 ^ 26) a b) imm ≡ op * 2 ^ 26 + a * 2 ^ 21 + b * 2 ^ 16 + imm
immediate_sum op a b imm ha hb hi =
    ap (λ t. bit_or t imm) (with_fields_sum op a b ha hb ∙ upper)
    ∙ bit_or_field 16 (op * 1024 + a * 32 + b) imm hi
    ∙ omega arith
  where
    upper : op * 2 ^ 26 + a * 2 ^ 21 + b * 2 ^ 16 ≡ (op * 1024 + a * 32 + b) * 2 ^ 16
    upper = omega arith

module _ (r : ℕ) (hr : r < 32) where
  pub lis_sum : (imm : ℕ) → imm < 2 ^ 16 → lis r imm ≡ 15 * 2 ^ 26 + r * 2 ^ 21 + imm
  unfolding lis addis
  lis_sum imm hi = immediate_sum 15 r 0 imm hr (omega arith) hi ∙ omega arith

  pub ori_sum : (imm : ℕ) → imm < 2 ^ 16 → ori r r imm ≡ 24 * 2 ^ 26 + r * 2 ^ 21 + r * 2 ^ 16 + imm
  unfolding ori
  ori_sum imm hi = immediate_sum 24 r r imm hr hr hi

  pub std_sum :
      (ds ra : ℕ)
      → ds < 2 ^ 16
      → ra < 32
      → std r ds ra ≡ 62 * 2 ^ 26 + r * 2 ^ 21 + ra * 2 ^ 16 + ds
  unfolding std
  std_sum ds ra hd ha = immediate_sum 62 r ra ds hr ha hd

  pub ld_sum :
      (ds ra : ℕ) → ds < 2 ^ 16 → ra < 32 → ld r ds ra ≡ 58 * 2 ^ 26 + r * 2 ^ 21 + ra * 2 ^ 16 + ds
  unfolding ld
  ld_sum ds ra hd ha = immediate_sum 58 r ra ds hr ha hd

  pub mtctr_sum : mtctr r ≡ 31 * 2 ^ 26 + r * 2 ^ 21 + 9 * 2 ^ 16 + 934
  unfolding mtctr mtspr spr_field exopcode
  mtctr_sum = immediate_sum 31 r 9 934 hr (omega arith) (omega arith)

linked_word : (lk : ℕ) → lk < 2 → bit_or lk 1056 ≡ lk + 1056
linked_word zero h = refl
linked_word (suc zero) h = refl
linked_word (suc (suc n)) h = absurd (omega arith)

pub bcctr_sum :
    (bo bi lk : ℕ)
    → bo < 32
    → bi < 32
    → lk < 2
    → bcctr bo bi lk ≡ 19 * 2 ^ 26 + bo * 2 ^ 21 + bi * 2 ^ 16 + 1056 + lk
unfolding bcctr exopcode
bcctr_sum bo bi lk ho hi hl =
    ap (λ t. bit_or (bit_or (with_fields (19 * 2 ^ 26) bo bi) t) 1056) small
    ∙ ap (λ t. bit_or t 1056) (immediate_sum 19 bo bi lk ho hi (omega arith) ∙ upper)
    ∙ bit_or_below 16 (19 * 1024 + bo * 32 + bi) lk 1056 (omega arith) (omega arith)
    ∙ omega (arith, linked_word lk hl)
  where
    small : lk % 2 ≡ lk
    small = omega arith

    upper : 19 * 2 ^ 26 + bo * 2 ^ 21 + bi * 2 ^ 16 + lk ≡ (19 * 1024 + bo * 32 + bi) * 2 ^ 16 + lk
    upper = omega arith
