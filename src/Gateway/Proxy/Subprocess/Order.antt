-- ===== src/Gateway/Proxy/Subprocess/Order.antt =====
-- What the subprocess's responses and its subscribers can come to.
use remote_juggler.Prelude.{
  ℕ, ◌≤◌, ◌≡◌, refl, sym, ap, ◌∙◌, arith, Bool, true, false, Option, none, some, List, [], ◌∷◌,
  ◌++◌, append_assoc, ltb, nat_eq, length, length-append, Bool-cases, inl, inr, if◌then◌else◌,
}
use mathlib.Core.Path.{subst}
use remote_juggler.Text.{Text}
use remote_juggler.Result.{Result, ok, err}
use remote_juggler.Gateway.Proxy.Subprocess.{
  Routed, skipped, response, notification, Pipe, new_pipe, route_line, delivered, read_line,
  read_next, receive, receive_from, subscribe, unsubscribe, take_message, response_capacity,
}

module _ (has_id : Text → Option Bool) where
  abbrev response_in : Routed → List Text → List Text
  response_in skipped rs = rs
  response_in (response r) rs = r ∷ rs
  response_in (notification n) rs = rs

  -- The responses among these lines, in their order.
  abbrev pub responses : List Text → List Text
  responses [] = []
  responses (line ∷ lines) = response_in (route_line has_id line) (responses lines)

  -- The pipe, with all that the subprocess has written and all that requests have got.
  pub record History : Type 0 where
    pub pipe : Pipe
    pub written : List Text
    pub got : List Text

  abbrev pub begin : History
  begin = record { pipe = new_pipe; written = []; got = [] }

  -- The subprocess writes, the loop reads a line, a request gets its response, or the subscribers change, in
  -- any order.
  pub data Step (s : History) : History → Type 0 where
    writes :
        (lines : List Text)
        → Step s (record s {
          pipe = record s.pipe { unread = s.pipe.unread ++ lines };
          written = s.written ++ lines;
        })
    reads : (p : Pipe) → read_line has_id s.pipe ≡ some p → Step s (record s { pipe = p })
    gets :
        (r : Text) (p : Pipe)
        → receive s.pipe ≡ some (ok r, p)
        → Step s (record s { pipe = p; got = s.got ++ (r ∷ []) })
    subscribes : (name : ℕ) → Step s (record s { pipe = subscribe name s.pipe })
    unsubscribes : (name : ℕ) → Step s (record s { pipe = unsubscribe name s.pipe })
    takes : (name : ℕ) → Step s (record s { pipe = take_message name s.pipe })

  pub data Reach : History → Type 0 where
    start : Reach begin
    later : {s s' : History} → Reach s → Step s s' → Reach s'

  -- What requests have got, then what waits for them, then what has not been read, are the responses
  -- written, and one at most waits.
  pub record InOrder (s : History) : Type 0 where
    pub order : s.got ++ (s.pipe.response_ch ++ responses s.pipe.unread) ≡ responses s.written
    pub room : length s.pipe.response_ch ≤ response_capacity

  response_in-append :
      (x : Routed) (rs ys : List Text) → response_in x (rs ++ ys) ≡ response_in x rs ++ ys
  response_in-append skipped rs ys = refl
  response_in-append (response r) rs ys = refl
  response_in-append (notification n) rs ys = refl

  responses-append : (xs ys : List Text) → responses (xs ++ ys) ≡ responses xs ++ responses ys
  responses-append [] ys = refl
  responses-append (x ∷ xs) ys =
      ap (response_in (route_line has_id x)) (responses-append xs ys)
      ∙ response_in-append (route_line has_id x) (responses xs) (responses ys)

  -- The responses that wait or are not read are these, and one at most waits.
  abbrev Good : List Text → Pipe → Type 0
  Good rs p =
      (p.response_ch ++ responses p.unread ≡ rs) × (length p.response_ch ≤ response_capacity)

  abbrev Holds : (Pipe → Type 0) → Option Pipe → Type 0
  Holds P none = Unit
  Holds P (some p) = P p

  delivered-Good :
      (x : Routed) (p : Pipe)
      → length p.response_ch ≤ response_capacity
      → Holds (Good (p.response_ch ++ response_in x (responses p.unread))) (delivered has_id x p)
  delivered-Good skipped p room = (refl, room)
  delivered-Good (notification n) p room = (refl, room)
  delivered-Good (response r) p room =
      elim (Bool-cases (ltb (length p.response_ch) response_capacity)) [
        | inl fits ↦
            rw (delivered, fits)
              (
                append_assoc p.response_ch (r ∷ []) (responses p.unread),
                ground (arith, fits, length-append p.response_ch (r ∷ [])),
              )
        | inr full ↦ rw (delivered, full) tt
      ]

  read_next-Good :
      (lines : List Text) (p : Pipe)
      → p.unread ≡ lines
      → length p.response_ch ≤ response_capacity
      → Holds (Good (p.response_ch ++ responses lines)) (read_next has_id lines p)
  read_next-Good [] p e room = (ap (λ ls. p.response_ch ++ responses ls) e, room)
  read_next-Good (line ∷ rest) p e room =
      delivered-Good (route_line has_id line) (record p { unread = rest }) room

  read_line_closed : (p : Pipe) → p.closed ≡ true → read_line has_id p ≡ none
  unfolding read_line
  read_line_closed p h = rw h refl

  read_line_open : (p : Pipe) → p.closed ≡ false → read_line has_id p ≡ read_next has_id p.unread p
  unfolding read_line
  read_line_open p h = ap (λ b. if b then none else read_next has_id p.unread p) h

  read_line-Good :
      (p : Pipe)
      → length p.response_ch ≤ response_capacity
      → Holds (Good (p.response_ch ++ responses p.unread)) (read_line has_id p)
  unfolding read_line
  read_line-Good p room = elim (Bool-cases p.closed) [
    | inl over ↦
        subst (Holds (Good (p.response_ch ++ responses p.unread))) (sym (read_line_closed p over))
          tt
    | inr open' ↦
        subst (Holds (Good (p.response_ch ++ responses p.unread))) (sym (read_line_open p open'))
          (read_next-Good p.unread p refl room)
  ]

  -- A response that is got is the first of those that waited.
  abbrev Taken : List Text → Pipe → Option (Result Text × Pipe) → Type 0
  Taken ch p none = Unit
  Taken ch p (some (err e, p')) = Unit
  Taken ch p (some (ok r, p')) = (ch ≡ r ∷ p'.response_ch) × (p'.unread ≡ p.unread)

  closed-Taken : (b : Bool) (e : Text) (p : Pipe) → Taken [] p (if b then some (err e, p) else none)
  closed-Taken true e p = tt
  closed-Taken false e p = tt

  receive_from-Taken : (ch : List Text) (p : Pipe) → Taken ch p (receive_from ch p)
  receive_from-Taken [] p = closed-Taken p.closed _ p
  receive_from-Taken (r ∷ rs) p = (refl, refl)

  regroup : (a b c d : List Text) → a ++ (b ++ (c ++ d)) ≡ (a ++ (b ++ c)) ++ d
  regroup a b c d = ap (λ x. a ++ x) (sym (append_assoc b c d)) ∙ sym (append_assoc a (b ++ c) d)

  Step-InOrder : {s s' : History} → Step s s' → InOrder s → InOrder s'
  unfolding subscribe unsubscribe take_message receive
  Step-InOrder {s} (writes lines) i = record {
    order =
        ap (λ x. s.got ++ (s.pipe.response_ch ++ x)) (responses-append s.pipe.unread lines)
        ∙ regroup s.got s.pipe.response_ch (responses s.pipe.unread) (responses lines)
        ∙ ap (λ x. x ++ responses lines) i.order
        ∙ sym (responses-append s.written lines);
    room = i.room;
  }
  Step-InOrder {s} (reads p h) i =
      let (same_rest, room) =
        subst (Holds (Good (s.pipe.response_ch ++ responses s.pipe.unread))) h
          (read_line-Good s.pipe i.room) in
      record { order = ap (λ x. s.got ++ x) same_rest ∙ i.order; room = room }
  Step-InOrder {s} (gets r p h) i =
      let (first, rest) =
        subst (Taken s.pipe.response_ch s.pipe) h (receive_from-Taken s.pipe.response_ch s.pipe) in
      record {
        order =
            append_assoc s.got (r ∷ []) (p.response_ch ++ responses p.unread)
            ∙ ap (λ x. s.got ++ (x ++ responses p.unread)) (sym first)
            ∙ ap (λ x. s.got ++ (s.pipe.response_ch ++ responses x)) rest
            ∙ i.order;
        room = ground (arith, i.room, ap length first);
      }
  Step-InOrder (subscribes name) i = record { order = i.order; room = i.room }
  Step-InOrder (unsubscribes name) i = record { order = i.order; room = i.room }
  Step-InOrder (takes name) i = record { order = i.order; room = i.room }

  -- In whatever order the subprocess writes, the lines are read and the requests take their responses, the
  -- k-th response that a request gets is the k-th that was written: none is lost, repeated or passed.
  pub Reach-InOrder : {s : History} → Reach s → InOrder s
  Reach-InOrder start = record { order = refl; room = omega arith }
  Reach-InOrder (later r st) = Step-InOrder st (Reach-InOrder r)
