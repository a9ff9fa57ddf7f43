-- ===== src/Pagination/Walk.antt =====
-- A client that follows the page tokens of a listing from the first page to the last.
use chargeflow_registry.Prelude.{
  ℕ, zero, suc, ◌+◌, ◌-◌, ◌^◌, ◌≤◌, ◌<◌, min, String, ◌≡◌, refl, List, [], ◌++◌, arith, Bool-cases,
  inl, inr, ◌==◌, if◌then◌else◌, pos, ok, err, length, take, drop, length-take, length-drop,
  take_all, take-append-drop, drop-drop, ap, ◌∙◌,
}
use mathlib.Core.List.{append-nil}
use native.Mathlib.Decide.{dec_lt}
use chargeflow_registry.Pagination.Token.{Codec, decode_offset, next_token}
use chargeflow_registry.Pagination.RoundTrip.{
  IsCodec, decode_offset-next_token, next_token-eq-empty_iff,
}

module _ {A : Type 0} (codec : Codec) (limit : ℕ) (rows : List A) where
  abbrev pub page : ℕ → List A
  page offset = take limit (drop offset rows)

  abbrev pub token_after : ℕ → String
  token_after offset = next_token codec offset (pos (length (page offset))) (pos (length rows))

  -- The rows that a client collects with at most so many requests, from a token on.
  pub walk : ℕ → String → List A
  walk zero token = []
  walk (suc fuel) token = elim (decode_offset codec token) [
    | err _ ↦ []
    | ok offset ↦
        let rest = walk fuel (token_after offset) in
        page offset ++ (if token_after offset == "" then [] else rest)
  ]

  pub walk-zero : (token : String) → walk zero token ≡ []
  unfolding walk
  walk-zero token = refl

  pub walk-suc :
      (fuel : ℕ) (token : String) {offset : ℕ}
      → decode_offset codec token ≡ ok offset
      → walk (suc fuel) token
        ≡ page offset ++ (if token_after offset == "" then [] else walk fuel (token_after offset))
  unfolding walk
  walk-suc fuel token e = rw (e, walk)

  length-page : (offset : ℕ) → length (page offset) ≡ min limit (length rows - offset)
  length-page offset =
      length-take limit (drop offset rows) ∙ ap (min limit) (length-drop offset rows)

  -- Behind a page that is not the last one the rest of the rows is what is dropped with it.
  page-append-drop :
      (offset : ℕ)
      → offset + limit ≤ length rows
      → page offset ++ drop (offset + length (page offset)) rows ≡ drop offset rows
  page-append-drop offset fits =
      let whole : length (page offset) ≡ limit = omega (arith, length-page offset) in
      rw (whole, ← drop-drop limit offset rows) (take-append-drop limit (drop offset rows))

  module _ (laws : IsCodec codec) (small : length rows < 2 ^ 32) (pos_limit : 0 < limit) where
    walk-eq-drop :
        (fuel : ℕ) (token : String) (offset : ℕ)
        → decode_offset codec token ≡ ok offset
        → offset ≤ length rows
        → length rows - offset < fuel
        → walk fuel token ≡ drop offset rows
    walk-eq-drop zero token offset e le lt = absurd (omega arith)
    walk-eq-drop (suc fuel) token offset e le lt =
        let ends =
          next_token-eq-empty_iff codec laws offset (length (page offset)) (length rows)
            (omega arith) (omega (arith, length-page offset)) (omega arith) in
        elim (Bool-cases (token_after offset == "")) [
          | inl last ↦
              rw (walk-suc fuel token e, last)
                (append-nil _
                  ∙ take_all limit (drop offset rows)
                      (omega (arith, ends.0 last, length-page offset, length-drop offset rows)))
          | inr more ↦
              let left : offset + length (page offset) < length rows =
                elim (dec_lt (offset + length (page offset)) (length rows)) [
                  | yes behind ↦ behind
                  | no over ↦ absurd (cc (ends.1 (inr (omega arith)), more))
                ] in
              rw (walk-suc fuel token e, more)
                (ap (λ ys. page offset ++ ys)
                    (walk-eq-drop fuel (token_after offset) (offset + length (page offset))
                      (decode_offset-next_token codec laws offset (length (page offset))
                        (length rows) (omega (arith, length-page offset)) left small)
                      (omega arith) (omega (arith, length-page offset)))
                  ∙ page-append-drop offset (omega (arith, length-page offset)))
        ]

    -- A client that follows the page tokens of a listing of fewer than 2^32 rows, with pages of a
    -- fixed positive size, from the first page on, and that may make more requests than there are
    -- rows, collects every row exactly once and in order.
    pub walk-eq-all : (fuel : ℕ) → length rows < fuel → walk fuel "" ≡ rows
    walk-eq-all fuel enough =
        walk-eq-drop fuel "" 0 (unfold decode_offset in refl) (omega arith) (omega arith)
