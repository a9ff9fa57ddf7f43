-- ===== src/Pagination/Token.antt =====
-- internal/pagination/token.go. The base64 form and the JSON form of a token are parameters.
use chargeflow_registry.Prelude.{
  ℕ, ◌+◌, ◌%◌, ◌^◌, String, Option, none, some, List, ◌==◌, ℤ, is_nonpos, to_uint32, to_uint64, ltb,
  leb, if◌then◌else◌, Result, ok, err,
}
use chargeflow_registry.Errors.{Error, sentinel, err_invalid_token}

-- base64.RawURLEncoding, and json.Marshal and json.Unmarshal of `token{Offset}`.
pub record Codec : Type 0 where
  pub encode : List ℕ → String
  pub decode : String → Option (List ℕ)
  pub marshal : ℕ → List ℕ
  pub unmarshal : List ℕ → Option ℕ

module _ (codec : Codec) where
  unfoldable pub decode_offset : String → Result Error ℕ
  decode_offset page_token = if page_token == "" then ok 0 else elim (codec.decode page_token) [
    | none ↦ err (sentinel err_invalid_token)
    | some raw ↦ elim (codec.unmarshal raw) [
      | none ↦ err (sentinel err_invalid_token)
      | some offset ↦ ok offset
    ]
  ]

  unfoldable pub next_token : ℕ → ℤ → ℤ → String
  next_token offset returned total =
      if is_nonpos returned
      then ""
      else let next = (offset + to_uint64 returned) % 2 ^ 64 in
        if leb (to_uint64 total) next then "" else codec.encode (codec.marshal (next % 2 ^ 32))

unfoldable pub clamp_page_size : ℤ → ℕ → ℕ → ℕ
clamp_page_size size default max =
    if is_nonpos size then default else if ltb max (to_uint32 size) then max else to_uint32 size
