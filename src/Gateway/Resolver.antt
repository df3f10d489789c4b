-- ===== src/Gateway/Resolver.antt =====
-- The composite resolver of gateway/resolver.go: sources of secrets, in order of precedence.
pub mod Precedence
use remote_juggler.Prelude.{
  Bool, true, false, Option, none, some, List, [], ◌∷◌, ◌++◌, not, ◌&&◌, ◌==◌, if◌then◌else◌,
}
use remote_juggler.Text.{Text, lit, text_eq, same, is_empty}
use remote_juggler.Result.{Result, ok, err, ◌>>=◌, wrap}

pub record ResolveResult : Type 0 where
  pub value : Text
  pub source : Text
  pub sources_checked : List Text
  pub cached : Bool
  pub error : Text

-- The result of a tool, as far as it is read: the texts of its contents, and the error flag.
pub record ToolResult : Type 0 where
  pub content : List Text
  pub is_error : Bool

-- A JSON-RPC response as a map: the raw error, and the raw result.
pub record Response : Type 0 where
  pub error : Option Text
  pub result : Option Text

-- What the resolver calls: the environment, the Chapel subprocess (with the name of the tool and
-- the query), Setec, the two decodings of encoding/json, and the quoting of `%q`.
pub record Backend : Type 0 where
  pub lookup_env : Text → Option Text
  pub send_request : Text → Text → Result Text
  pub setec_get : Text → Result Text
  pub unmarshal_response : Text → Result Response
  pub unmarshal_tool_result : Text → Option ToolResult
  pub quote : Text → Text

-- The `msg` of a tool that reports an error.
unfoldable pub error_message : List Text → Text
unfolding lit
error_message [] = lit "unknown error"
error_message (t ∷ ts) = t

-- `err == nil && val != ""`
abbrev pub hit : Result Text → Option Text
hit (ok v) = if is_empty v then none else some v
hit (err e) = none

module _ (b : Backend) where
  resolve_env : Text → Result Text
  unfolding lit
  resolve_env query = elim (b.lookup_env query) [
    | none ↦ err (lit "env " ++ (b.quote query ++ lit " not set"))
    | some v ↦ ok v
  ]

  -- The last part of `resolveSOPS` and of `resolveKDBX`, which differ in the name of the source.
  tool_value : Text → Text → Option ToolResult → Result Text
  unfolding lit error_message
  tool_value name query none = err (name ++ (lit ": no result for " ++ b.quote query))
  tool_value name query (some t) =
      if t.is_error then err (name ++ (lit ": " ++ error_message t.content)) else elim t.content [
        | [] ↦ err (name ++ (lit ": no result for " ++ b.quote query))
        | x ∷ xs ↦ ok x
      ]

  response_value : Text → Text → Response → Result Text
  unfolding lit tool_value
  response_value name query r = elim r.error [
    | some e ↦ err (name ++ (lit " error: " ++ e))
    | none ↦ elim r.result [
      | none ↦ err (name ++ (lit ": no result for " ++ b.quote query))
      | some raw ↦ tool_value name query (b.unmarshal_tool_result raw)
    ]
  ]

  resolve_tool : Text → Text → Text → Result Text
  unfolding lit response_value
  resolve_tool name tool query =
      wrap (λ e. name ++ (lit " query: " ++ e)) (b.send_request tool query) >>= λ resp.
      wrap (λ e. name ++ (lit " parse: " ++ e)) (b.unmarshal_response resp) >>= λ r.
      response_value name query r

  unfoldable pub resolve_sops : Text → Result Text
  unfolding lit resolve_tool
  resolve_sops query = resolve_tool (lit "sops") (lit "juggler_keys_sops_export") query

  unfoldable pub resolve_kdbx : Text → Result Text
  unfolding lit resolve_tool
  resolve_kdbx query = resolve_tool (lit "kdbx") (lit "juggler_keys_resolve") query

  unfoldable pub resolve_source : Text → Text → Result Text
  unfolding lit resolve_env resolve_sops resolve_kdbx
  resolve_source source query =
      if source == lit "env"
      then resolve_env query
      else if source == lit "sops"
      then resolve_sops query
      else if source == lit "kdbx"
      then resolve_kdbx query
      else if source == lit "setec"
      then b.setec_get query
      else err (lit "unknown source: " ++ source)

  -- The loop of `Resolve`, with the sources checked so far.
  unfoldable pub resolve_from : Text → List Text → List Text → ResolveResult
  unfolding lit resolve_source
  resolve_from query checked [] = record {
    value = [];
    source = [];
    sources_checked = checked;
    cached = false;
    error = lit "secret " ++ (b.quote query ++ lit " not found in any source");
  }
  resolve_from query checked (src ∷ rest) = elim (hit (resolve_source src query)) [
    | some v ↦ record {
      value = v;
      source = src;
      sources_checked = checked ++ (src ∷ []);
      cached = false;
      error = [];
    }
    | none ↦ resolve_from query (checked ++ (src ∷ [])) rest
  ]

  -- `Resolve`: without sources of its own, a query goes through those of the configuration.
  unfoldable pub resolve : List Text → Text → List Text → ResolveResult
  unfolding resolve_from
  resolve precedence query [] = resolve_from query [] precedence
  resolve precedence query (s ∷ sources) = resolve_from query [] (s ∷ sources)
