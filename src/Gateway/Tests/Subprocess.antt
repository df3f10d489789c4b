-- ===== src/Gateway/Tests/Subprocess.antt =====
-- The theorem on the pipe to the Chapel subprocess, at a concrete history.
use remote_juggler.Prelude.{
  refl, Bool, true, false, Option, some, none, List, [], ◌∷◌, ◌==◌, nat_eq, if◌then◌else◌,
}
use remote_juggler.Text.{Text, lit, text_eq, same, trim_space, trim_left, trim_right, is_space}
use remote_juggler.Gateway.Proxy.Subprocess.{Pipe, read_line, route_line, receive, subscribe}
use remote_juggler.Gateway.Proxy.Subprocess.Order.{
  History, writes, reads, gets, subscribes, Reach, start, later, InOrder, Reach-InOrder,
}

-- Texts for objects: `n` has no `id`, and `x` is no object.
abbrev has_id : Text → Option Bool
has_id line = if line == lit "x" then none else if line == lit "n" then some false else some true

-- The history: a notification and a response are written, and no one has got the response.
abbrev lines : List Text
lines = lit " n" ∷ lit "a " ∷ []

abbrev pipe_of : List Text → List Text → List Text → Pipe
pipe_of unread waiting seen = record {
  unread = unread;
  response_ch = waiting;
  closed = false;
  subs = record { name = 5; queue = seen } ∷ [];
}

abbrev history_of : Pipe → List Text → History has_id
history_of p got = record { pipe = p; written = lines; got = got }

abbrev got_first : History has_id
got_first = history_of (pipe_of [] [] (lit "n" ∷ [])) (lit "a" ∷ [])

got_first-Reach : Reach has_id got_first
unfolding read_line route_line receive subscribe lit same trim_space trim_left trim_right is_space
got_first-Reach =
    later
      (later
        (later (later (later start (subscribes 5)) (writes lines))
          (reads (pipe_of (lit "a " ∷ []) [] (lit "n" ∷ [])) refl))
        (reads (pipe_of [] (lit "a" ∷ []) (lit "n" ∷ [])) refl))
      (gets (lit "a") (pipe_of [] [] (lit "n" ∷ [])) refl)

Reach-InOrder_example : InOrder has_id got_first
Reach-InOrder_example = Reach-InOrder has_id got_first-Reach
