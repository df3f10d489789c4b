-- ===== src/Gateway/Values.antt =====
-- The values that the gateway's tools encode with encoding/json: Go's `any`, over a type of JSON values,
-- and the texts that package fmt and `mustMarshal` make of them.
use remote_juggler.Prelude.{ℕ, Option, List, [], ◌∷◌, Bool}
use remote_juggler.Prelude.Int.{ℤ}
use remote_juggler.Text.{Text, lit}
use remote_juggler.Dict.{Dict}
use remote_juggler.Result.{Result}

pub record Values (J : Type 0) : Type 0 where
  pub text : Text → J
  pub number : ℤ → J
  -- A 64-bit counter
  pub counter : ℕ → J
  pub flag : Bool → J
  pub array : List J → J
  pub object : Dict J → J
  -- `json.RawMessage`
  pub raw : Text → J
  -- `mustMarshal`
  pub must_marshal : J → Text
  -- `json.Marshal`
  pub marshal : J → Result Text
  -- `json.Unmarshal` into a map: `none` is its error, and `some none` the nil map that it makes of `null`.
  pub unmarshal_object : Text → Option (Option (Dict J))
  -- `json.Unmarshal` of a tool's arguments into the struct of the function of this name: its error, if there
  -- is one, which depends on the types of the struct's fields; and, for any struct with the field, the texts and
  -- the numbers of its fields, which are empty or zero where the arguments have none.
  pub args_error : Text → Text → Option Text
  pub arg_text : Text → Text → Text
  pub arg_number : Text → Text → ℤ

module _ {J : Type 0} (v : Values J) where
  -- A tool's result with one text.
  abbrev pub text_content : Text → J
  text_content s = v.object (
      (
        lit "content",
        v.array (v.object ((lit "type", v.text (lit "text")) ∷ (lit "text", v.text s) ∷ []) ∷ []),
      )
      ∷ [])

  -- `mcpTextResult`
  unfoldable pub mcp_text_result : J → Result Text
  unfolding lit
  mcp_text_result value = v.marshal (text_content (v.must_marshal value))
