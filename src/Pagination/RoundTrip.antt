-- ===== src/Pagination/RoundTrip.antt =====
-- Page tokens of internal/pagination/token.go, written by `NextToken` and read by `DecodeOffset`.
use chargeflow_registry.Prelude.{
  ℕ, zero, suc, ◌+◌, ◌%◌, ◌^◌, ◌≤◌, ◌<◌, ◌≡◌, ◌↔◌, ◌⊎◌, inl, inr, refl, some, List, false, true,
  leb, if◌then◌else◌, ◌==◌, Bool-cases, pos, arith, ok,
}
use chargeflow_registry.Pagination.Token.{Codec, decode_offset, next_token}

-- What the code relies on of encoding/base64 and encoding/json: each decoder undoes its encoder,
-- and the text of an encoded token is not empty.
pub record IsCodec (codec : Codec) : Type 0 where
  pub decode-encode : (raw : List ℕ) → codec.decode (codec.encode raw) ≡ some raw
  pub unmarshal-marshal : (n : ℕ) → n < 2 ^ 32 → codec.unmarshal (codec.marshal n) ≡ some n
  pub token-not_empty : (n : ℕ) → (codec.encode (codec.marshal n) == "") ≡ false

module _ (codec : Codec) (laws : IsCodec codec) where
  decode_offset-encode :
      (n : ℕ) → n < 2 ^ 32 → decode_offset codec (codec.encode (codec.marshal n)) ≡ ok n
  unfolding decode_offset
  decode_offset-encode n h = ground (
    arith,
    laws.token-not_empty n,
    laws.decode-encode (codec.marshal n),
    laws.unmarshal-marshal n,
  )

  -- In range the widths make no difference, but for the offset's own 32 bits.
  next_token-suc :
      (offset n total : ℕ)
      → offset < 2 ^ 32
      → suc n < 2 ^ 32
      → total < 2 ^ 63
      → next_token codec offset (pos (suc n)) (pos total) ≡ (
          if leb total (offset + suc n)
          then ""
          else codec.encode (codec.marshal ((offset + suc n) % 2 ^ 32)))
  unfolding next_token
  next_token-suc offset n total p h k =
      let whole_total : total % 2 ^ 64 ≡ total = omega arith in
      let whole_page : suc n % 2 ^ 64 ≡ suc n = omega arith in
      let whole_next : (offset + suc n) % 2 ^ 64 ≡ offset + suc n = omega arith in
      rw (whole_total, whole_page, whole_next)

  -- Where a page is not empty, rows are left behind it, and there are fewer than 2^32 rows, the
  -- token of the next page decodes to the offset behind the page.
  pub decode_offset-next_token :
      (offset returned total : ℕ)
      → 0 < returned
      → offset + returned < total
      → total < 2 ^ 32
      → decode_offset codec (next_token codec offset (pos returned) (pos total))
        ≡ ok (offset + returned)
  decode_offset-next_token offset zero total p h k = absurd (omega arith)
  decode_offset-next_token offset (suc n) total p h k =
      let more : leb total (offset + suc n) ≡ false = ground arith in
      let whole : (offset + suc n) % 2 ^ 32 ≡ offset + suc n = omega arith in
      rw (next_token-suc offset n total (omega arith) (omega arith) (omega arith), more, whole)
        (decode_offset-encode (offset + suc n) (omega arith))

  -- For an offset and a page of fewer than 2^32 rows each and a total below 2^63, the token of the
  -- next page is empty exactly when the page is empty or no rows are left behind it.
  pub next_token-eq-empty_iff :
      (offset returned total : ℕ)
      → offset < 2 ^ 32
      → returned < 2 ^ 32
      → total < 2 ^ 63
      → ((next_token codec offset (pos returned) (pos total) == "") ≡ true)
        ↔ ((returned ≡ 0) ⊎ (total ≤ offset + returned))
  next_token-eq-empty_iff offset zero total p h k = unfold next_token in (λ _. inl refl, λ _. refl)
  next_token-eq-empty_iff offset (suc n) total p h k =
      let shape = next_token-suc offset n total p h k in
      elim (Bool-cases (leb total (offset + suc n))) [
        | inl last ↦ rw (shape, last) (λ _. inr (ground arith), λ _. refl)
        | inr more ↦
            rw (shape, more) (ground (arith, laws.token-not_empty ((offset + suc n) % 2 ^ 32)))
      ]
