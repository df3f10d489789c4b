-- ===== src/Gateway/Proxy/Subprocess.antt =====
-- The pipe to the Chapel subprocess in gateway/mcp_proxy.go: readLoop, SendRequest and the subscribers of
-- notifications.
pub mod Order
use remote_juggler.Prelude.{
  ℕ, zero, suc, Bool, true, false, Option, none, some, List, [], ◌∷◌, ◌++◌, not, ltb, ◌==◌, nat_eq,
  length, keep, map, if◌then◌else◌,
}
use remote_juggler.Text.{Text, lit, trim_space, is_empty}
use remote_juggler.Result.{Result, ok, err}

-- What `readLoop` makes of a line.
pub data Routed : Type 0 where
  skipped : Routed
  response : Text → Routed
  notification : Text → Routed

-- A subscriber: its channel's name, and what waits in it.
pub record Subscriber : Type 0 where
  pub name : ℕ
  pub queue : List Text

pub record Pipe : Type 0 where
  -- The lines that the subprocess has written and nobody has read
  pub unread : List Text
  pub response_ch : List Text
  pub closed : Bool
  pub subs : List Subscriber

abbrev pub new_pipe : Pipe
new_pipe = record { unread = []; response_ch = []; closed = false; subs = [] }

-- The capacities of the channels.
abbrev pub response_capacity : ℕ
response_capacity = 1

abbrev pub subscriber_capacity : ℕ
subscriber_capacity = 64

-- The line without the white space around it and without NUL bytes.
abbrev clean : Text → Text
clean line = keep (λ a. not (a == 0)) (trim_space line)

-- `has_id` decodes a JSON object and tells whether it has an `id`; `none` is its error.
module _ (has_id : Text → Option Bool) where
  abbrev by_id : Text → Option Bool → Routed
  by_id line none = skipped
  by_id line (some true) = response line
  by_id line (some false) = notification line

  unfoldable pub route_line : Text → Routed
  unfolding trim_space
  route_line line =
      let text = clean line in if is_empty text then skipped else by_id text (has_id text)

  abbrev pub offer : Text → Subscriber → Subscriber
  offer text s =
      if ltb (length s.queue) subscriber_capacity
      then record s { queue = s.queue ++ (text ∷ []) }
      else s

  -- `broadcast`: a subscriber whose channel is full misses the message.
  abbrev pub broadcast : Text → Pipe → Pipe
  broadcast text p = record p { subs = map (offer text) p.subs }

  -- A line that has been routed; `none` waits for room in the channel of the responses.
  abbrev pub delivered : Routed → Pipe → Option Pipe
  delivered skipped p = some p
  delivered (response r) p =
      if ltb (length p.response_ch) response_capacity
      then some (record p { response_ch = p.response_ch ++ (r ∷ []) })
      else none
  delivered (notification text) p = some (broadcast text p)

  -- At the end of the output the channel is closed.
  abbrev pub read_next : List Text → Pipe → Option Pipe
  read_next [] p = some (record p { closed = true })
  read_next (line ∷ rest) p = delivered (route_line line) (record p { unread = rest })

  -- One round of `readLoop`, which is over once it has closed the channel.
  unfoldable pub read_line : Pipe → Option Pipe
  unfolding route_line
  read_line p = if p.closed then none else read_next p.unread p

abbrev pub receive_from : List Text → Pipe → Option (Result Text × Pipe)
receive_from [] p = if p.closed then some (err (lit "subprocess closed"), p) else none
receive_from (r ∷ rs) p = some (ok r, record p { response_ch = rs })

-- The end of `SendRequest`: the next response of the channel; `none` waits for one.
unfoldable pub receive : Pipe → Option (Result Text × Pipe)
unfolding lit
receive p = receive_from p.response_ch p

-- `subscribe` and `unsubscribe`
unfoldable pub subscribe : ℕ → Pipe → Pipe
subscribe name p = record p { subs = record { name = name; queue = [] } ∷ p.subs }

unfoldable pub unsubscribe : ℕ → Pipe → Pipe
unsubscribe name p = record p { subs = keep (λ s. not (s.name == name)) p.subs }

abbrev take_one : ℕ → Subscriber → Subscriber
take_one name s =
    if s.name == name then elim s.queue [ [] ↦ s | e ∷ es ↦ record s { queue = es } ] else s

-- The loop of `HandleSSE` takes the next message of its channel.
unfoldable pub take_message : ℕ → Pipe → Pipe
take_message name p = record p { subs = map (take_one name) p.subs }

-- The text that `HandleSSE` writes for a message.
unfoldable pub sse_event : Text → Text
unfolding lit
sse_event message = lit "data: " ++ (message ++ (10 ∷ 10 ∷ []))
