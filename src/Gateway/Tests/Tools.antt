-- ===== src/Gateway/Tests/Tools.antt =====
-- The theorems on the MCP proxy, at concrete inputs.
use remote_juggler.Prelude.{
  ℕ, zero, suc, ◌+◌, ◌≡◌, refl, ap, sym, map, true, false, Option, none, some, List, [], ◌∷◌, ◌++◌,
  ◌==◌, nat_eq, length, take, drop, take-append, drop-append, is_some, if◌then◌else◌,
}
use remote_juggler.Prelude.Int.{pos}
use remote_juggler.Text.{Text, lit, text_eq, same}
use remote_juggler.Dict.{Dict}
use remote_juggler.Result.{Result, ok, err}
use remote_juggler.Http.{Transport}
use remote_juggler.Gateway.Identity.{CallerIdentity}
use remote_juggler.Gateway.Metering.{new_meter_store}
use remote_juggler.Gateway.Setec
use remote_juggler.Gateway.Setec.{new_setec_client}
use remote_juggler.Gateway.Audit.{new_audit_log}
use remote_juggler.Gateway.Resolver.{ResolveResult}
use remote_juggler.Gateway.Values.{Values}
use remote_juggler.Gateway.Proxy.{
  ProxyState, GithubTools, Services, is_gateway_tool, handle_gateway_tool,
}
use remote_juggler.Gateway.Proxy.Audited.{Answered, handle_gateway_tool-Left}
use remote_juggler.Gateway.Proxy.Rpc.{RpcRequest, own_tools, ToolsList, Upstream, route, forwarded}
use remote_juggler.Gateway.Proxy.Rpc.Metered.{Counted, route-Counted}
use remote_juggler.Gateway.Proxy.Rpc.Listed.{Faithful, Encodes, Listing, forwarded-Listing}

-- A world of one counter, in which every request is answered with an empty body.
abbrev pub answering : Transport ℕ
answering = record {
  new_request = λ q. none;
  send = λ q w. (ok (record { status_code = 200; body = []; read_error = none }), w + 1);
}

abbrev setec_codecs : Setec.Codecs ℕ
setec_codecs = record {
  clock = λ w. w;
  marshal_name = λ s. s;
  marshal_put = λ full s. s;
  decode_secret = λ r. err [];
  unmarshal_entries = λ s. ok [];
  unmarshal_wrapped = λ s. ok [];
  decode_info = λ r. ok [];
  encode_value = λ s. s;
  decode_value = λ s. some s;
  quote = λ s. s;
}

-- Values are texts; arguments give each field its own name, but an agent and a file's texts.
abbrev field_text : Text → Text → Text
field_text args name =
    if name == lit "old_content"
    then lit "b"
    else if name == lit "new_content"
    then lit "xy"
    else name

abbrev pub values : Values Text
values = record {
  text = λ s. s;
  number = λ n. [];
  counter = λ n. [];
  flag = λ b. [];
  array = λ xs. [];
  object = λ d. lit "{}";
  raw = λ s. s;
  must_marshal = λ s. s;
  marshal = λ s. ok s;
  unmarshal_object = λ s. none;
  args_error = λ tool s. none;
  arg_text = field_text;
  arg_number = λ args name. pos 1;
}

abbrev nothing_found : ResolveResult
nothing_found = record {
  value = [];
  source = [];
  sources_checked = [];
  cached = false;
  error = lit "none";
}

abbrev services : Services ℕ Text
services = record {
  resolve = λ q sources s. (nothing_found, s);
  arg_sources = λ s. [];
  resolve_result = λ r. [];
  entry_value = λ e. [];
  marshal_entry = λ e. some [];
}

abbrev says : Text → Text → ℕ → Result Text × ℕ
says s args w = (ok s, w + 1)

abbrev tools : GithubTools ℕ
tools = record {
  fetch = says (lit "file");
  list_alerts = says [];
  get_alert = says [];
  create_branch = says [];
  update_file = says [];
  patch_file = says [];
  create_pr = says [];
  create_issue = says [];
  discussion_list = says [];
  discussion_get = says [];
  discussion_search = says [];
  discussion_reply = says [];
  discussion_label = says [];
  request_secret = says [];
}

abbrev nobody : CallerIdentity
nobody = record { node = []; user = []; login = []; capabilities = []; tailnet_ip = [] }

abbrev a_proxy : ProxyState
a_proxy = record {
  setec = new_setec_client (lit "s") (lit "rj/");
  audit = some new_audit_log;
  meter = some new_meter_store;
  aperture = none;
  campaigns = none;
}

fetch_known : is_gateway_tool (lit "github_fetch") ≡ true
unfolding is_gateway_tool lit same
fetch_known = refl

handle_gateway_tool-Left_example :
    Answered answering setec_codecs values services nobody tools
      (lit "1")
      (lit "github_fetch")
      a_proxy
      (handle_gateway_tool answering setec_codecs values services nobody tools
        (lit "1")
        (lit "github_fetch")
        (lit "{}")
        a_proxy
        7)
handle_gateway_tool-Left_example =
    handle_gateway_tool-Left answering setec_codecs values services nobody tools (lit "1")
      (lit "github_fetch") (lit "{}") a_proxy 7 fetch_known

-- Lists of texts as a text, each after its length.
abbrev put_texts : List Text → Text
put_texts [] = []
put_texts (t ∷ ts) = length t ∷ t ++ put_texts ts

abbrev get_texts : ℕ → Text → List Text
get_texts zero s = []
get_texts (suc n) [] = []
get_texts (suc n) (k ∷ s) = take k s ∷ get_texts n (drop k s)

get_texts-put_texts : (ts : List Text) → get_texts (length ts) (put_texts ts) ≡ ts
get_texts-put_texts [] = refl
get_texts-put_texts (t ∷ ts) =
    rw (take-append t (put_texts ts), drop-append t (put_texts ts), get_texts-put_texts ts) refl

abbrev put_list : ToolsList → Text
put_list l = length l.tools ∷ put_texts (l.jsonrpc ∷ l.id ∷ l.tools)

abbrev list_of : List Text → Option ToolsList
list_of (jsonrpc ∷ id ∷ ts) = some (record { jsonrpc = jsonrpc; id = id; tools = ts })
list_of _ = none

abbrev get_list : Text → Option ToolsList
get_list [] = none
get_list (n ∷ s) = list_of (get_texts (suc (suc n)) s)

abbrev upstream : Upstream ℕ
upstream = record {
  send_request = λ s w. (ok s, w + 1);
  rpc_error = λ s. none;
  decode_rpc = λ s. record {
    id = lit "1";
    method = lit "tools/call";
    name = lit "juggler_status";
    arguments = [];
  };
  decode_tools = get_list;
  encode_tools = λ l. some (put_list l);
  has_tools = λ s. some (is_some (get_list s));
  gateway_tool_definitions = lit "setec" ∷ [];
}

map_same : (ts : List Text) → map (λ s. s) ts ≡ ts
map_same [] = refl
map_same (t ∷ ts) = ap (λ us. t ∷ us) (map_same ts)

encodes : (l : ToolsList) → Encodes upstream (λ s. s) l
encodes l = (
  put_list l,
  refl,
  (l, ap list_of (get_texts-put_texts (l.jsonrpc ∷ l.id ∷ l.tools)), sym (map_same l.tools)),
)

faithful : Faithful upstream (λ s. s)
faithful = record {
  extended = λ s l dec. encodes (record l { tools = l.tools ++ upstream.gateway_tool_definitions });
}

abbrev pub as_listed : Dict ℕ → Dict ℕ
as_listed d = d

abbrev a_call : RpcRequest
a_call = record {
  id = lit "1";
  method = lit "tools/call";
  name = lit "juggler_status";
  arguments = [];
}

route-Counted_example :
    Counted answering setec_codecs values services nobody tools upstream as_listed
      (is_gateway_tool a_call.name)
      a_call
      (lit "{}")
      a_proxy
      7
      new_meter_store
      (route answering setec_codecs values services nobody tools upstream as_listed a_call true
        (lit "{}")
        a_proxy
        7)
route-Counted_example =
    route-Counted answering setec_codecs values services nobody tools upstream as_listed a_call
      (lit "{}") a_proxy 7 new_meter_store refl refl

abbrev a_listing : RpcRequest
a_listing = record a_call { method = lit "tools/list" }

-- A list of one tool in a response of the subprocess.
abbrev one_listed : Text
one_listed = put_list (record { jsonrpc = lit "2.0"; id = lit "1"; tools = lit "status" ∷ [] })

forwarded-Listing_example :
    let (reply, s) =
      forwarded answering setec_codecs values services nobody tools upstream as_listed a_listing
        a_proxy
        (ok one_listed, 7) in
    (reply.status ≡ 200) × Listing upstream (λ s. s) (ok one_listed) reply.body
forwarded-Listing_example =
    forwarded-Listing answering setec_codecs values services nobody tools upstream as_listed
      (λ s. s) faithful a_listing a_proxy (ok one_listed) 7 refl
      (encodes (own_tools upstream a_listing.id))
