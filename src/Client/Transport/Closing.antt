-- ===== src/Client/Transport/Closing.antt =====
-- When a response is sent on a closed channel, which panics in Go.
use mcp_module.Common.{
  ℕ, ◌+◌, Bool, true, false, Option, none, some, if◌then◌else◌, ◌≡◌, ◌≢◌, inl, inr, refl, sym, ap,
  subst, ◌∙◌, arith, if-both,
}
use mcp_module.Json.{Any, int64, is_absent, Runtime}
use mcp_module.Protocol.{Response}
use mcp_module.Protocol.Ids.{normalize_id, is_hashable}
use mcp_module.Client.Config.{Transport, stdio, http}
use mcp_module.Client.Transport.{
  Channel, made, Reader, reading, ended, holding, crashed, unhashable, closed_channel, Connection,
  key, bits_of, update, new_connection, register, waste, leave, take, find_pending, hold,
  on_response, offer, delivered, deliver, close_all, end_reading, close_first, close,
}
use mcp_module.Client.Transport.Steps.{
  Step, registers, wastes, gives_up, takes, sees_closed, receives, delivers, ends, closes, Reach,
  start, later,
}
use mcp_module.Client.Transport.Updates.{update-field}
use mcp_module.Client.Transport.Ownership.{Reach-IsOwned}

abbrev closed_of : Channel → Bool
closed_of ch = ch.closed

ended_holding : {n : ℕ} {r : Response} → ended ≢ holding n r
ended_holding e = cc

-- In the stdio client a channel is closed only by the reader's end.
record IsQuiet (c : Connection) : Type 0 where
  closing : (n : ℕ) → (c.channel n).closed ≡ true → c.reader ≡ ended
  sound : c.reader ≢ crashed closed_channel

module _ (c : Connection) (q : IsQuiet c) where
  channel-IsQuiet :
      (d : Connection) (n : ℕ) (ch : Channel)
      → d.reader ≡ c.reader
      → d.channel ≡ update c.channel n ch
      → (ch.closed ≡ true → (c.channel n).closed ≡ true)
      → IsQuiet d
  channel-IsQuiet d n ch same channels h = record {
    closing = λ m e.
        same
        ∙ (elim (update-field closed_of c.channel n ch m
            (subst (λ (f : ℕ → Channel). (f m).closed ≡ true) channels e)) [
              | inl (_, x) ↦ q.closing n (h x)
              | inr before ↦ q.closing m before
            ]);
    sound = λ e. q.sound (sym same ∙ e);
  }

  reader-IsQuiet :
      (x : Reader)
      → c.reader ≢ ended
      → x ≢ crashed closed_channel
      → IsQuiet (record c { reader = x })
  reader-IsQuiet x going sound = record {
    closing = λ n e. absurd (going (q.closing n e));
    sound = sound;
  }

  on_response-IsQuiet :
      (go : Runtime) (r : Response) → c.reader ≡ reading → IsQuiet (on_response go r c)
  unfolding on_response
  on_response-IsQuiet go r e =
      let going : c.reader ≢ ended = λ x. cc in
      if-both IsQuiet (is_absent r.id) q (
        if-both IsQuiet (is_hashable (normalize_id go r.id))
          (hold-IsQuiet going (find_pending c (normalize_id go r.id)))
          (reader-IsQuiet (crashed unhashable) going (λ x. cc)))
    where
      hold-IsQuiet : c.reader ≢ ended → (o : Option ℕ) → IsQuiet (hold c r o)
      hold-IsQuiet going none = q
      hold-IsQuiet going (some n) = reader-IsQuiet (holding n r) going (λ x. cc)

  open-IsQuiet :
      (n : ℕ) (ch : Channel) {r : Response}
      → ch.closed ≢ true
      → c.reader ≡ holding n r
      → IsQuiet (record c { reader = reading; channel = update c.channel n ch })
  open-IsQuiet n ch open_now e = record {
    closing = λ m x. elim (update-field closed_of c.channel n ch m x) [
      | inl (_, y) ↦ absurd (open_now y)
      | inr before ↦ absurd (ended_holding (sym (q.closing m before) ∙ e))
    ];
    sound = λ x. cc;
  }

  delivered-IsQuiet :
      (n : ℕ) (r : Response) (closed : Bool) (b : Option Response)
      → c.reader ≡ holding n r
      → (c.channel n).closed ≡ closed
      → IsQuiet (delivered n c (offer r closed b))
  unfolding delivered offer
  delivered-IsQuiet n r true b e shut = absurd (ended_holding (sym (q.closing n shut) ∙ e))
  delivered-IsQuiet n r false none e shut = open-IsQuiet n _ (λ x. cc) e
  delivered-IsQuiet n r false (some x) e shut = open-IsQuiet n _ (λ x. cc) e

module _ (go : Runtime) where
  Step-IsQuiet : {c d : Connection} → Step go stdio c d → IsQuiet c → IsQuiet d
  unfolding register waste leave take deliver end_reading close close_first close_all
  Step-IsQuiet {c} registers q =
      channel-IsQuiet c q (register c) (c.count + 1) made refl refl (λ x. cc)
  Step-IsQuiet {c} wastes q = record { closing = q.closing; sound = q.sound }
  Step-IsQuiet {c} (gives_up n _) q = record { closing = q.closing; sound = q.sound }
  Step-IsQuiet {c} (takes n r _ _) q = channel-IsQuiet c q (take n r c) n _ refl refl (λ x. x)
  Step-IsQuiet {c} (sees_closed n _ _ _) q = record { closing = q.closing; sound = q.sound }
  Step-IsQuiet {c} (receives r e) q = on_response-IsQuiet c q go r e
  Step-IsQuiet {c} (delivers n r e) q =
      delivered-IsQuiet c q n r (c.channel n).closed (c.channel n).buffer e refl
  Step-IsQuiet {c} (ends _) q = record { closing = λ n e. refl; sound = λ e. cc }
  Step-IsQuiet {c} closes q =
      if-both IsQuiet c.closed q (record { closing = q.closing; sound = q.sound })

  Reach-IsQuiet : {c : Connection} → Reach go stdio c → IsQuiet c
  unfolding new_connection
  Reach-IsQuiet start = record { closing = λ n e. cc; sound = λ e. cc }
  Reach-IsQuiet (later r s) = Step-IsQuiet s (Reach-IsQuiet r)

-- The stdio client never sends on a closed channel, in whatever order its calls, its reader and
-- Close take their steps.
pub stdio_reader_sound :
    (go : Runtime) {c : Connection} → Reach go stdio c → c.reader ≢ crashed closed_channel
stdio_reader_sound go r = (Reach-IsQuiet go r).sound

-- Holding the channel of a pending call, the reader of the HTTP client panics if Close comes first.
close-crashed :
    (n : ℕ) (r : Response) (c : Connection)
    → c.pending (key n) ≡ some n
    → (deliver n r (close_first http c)).reader ≡ crashed closed_channel
unfolding deliver delivered offer close_first close_all
close-crashed n r c e = ground (arith, e)

pub on_response-held :
    (go : Runtime) (r : Response) (c : Connection) (n : ℕ)
    → is_absent r.id ≡ false
    → is_hashable (normalize_id go r.id) ≡ true
    → find_pending c (normalize_id go r.id) ≡ some n
    → on_response go r c ≡ record c { reader = holding n r }
unfolding on_response hold
on_response-held go r c n a h found = rw (a, h) (rw found refl)

close-first : (t : Transport) (c : Connection) → c.closed ≡ false → close t c ≡ close_first t c
unfolding close
close-first t c e = ap (λ b. if b then c else close_first t c) e

close_first-reader : (t : Transport) (c : Connection) → (close_first t c).reader ≡ c.reader
unfolding close_first close_all
close_first-reader stdio c = refl
close_first-reader http c = refl

pending_itself :
    (c : Connection)
    → ((k n : ℕ) → c.pending k ≡ some n → key n ≡ k)
    → (n : ℕ) (a : Any) → find_pending c a ≡ some n
    → c.pending (key n) ≡ some n
unfolding find_pending
pending_itself c keyed n (int64 z) found = ap c.pending (keyed (bits_of z) n found) ∙ found
pending_itself c keyed n _ found = cc

-- The HTTP client can panic: whenever the reader of a connection that is not closed gets a response
-- to a pending call, it holds that response for the channel of the call; if Close runs then, before
-- the send, the send that comes next is on a channel that Close has closed, and panics. These are
-- steps that the connection can take, one after another.
pub http_close_race :
    (go : Runtime) {c : Connection} (r : Response) (n : ℕ)
    → Reach go http c
    → c.reader ≡ reading
    → c.closed ≡ false
    → is_absent r.id ≡ false
    → is_hashable (normalize_id go r.id) ≡ true
    → find_pending c (normalize_id go r.id) ≡ some n
    → let held = on_response go r c in
      (held.reader ≡ holding n r)
      × Step go http held (close http held)
      × Step go http (close http held) (deliver n r (close http held))
      × ((deliver n r (close http held)).reader ≡ crashed closed_channel)
      × Reach go http (deliver n r (close http held))
http_close_race go {c} r n reach e o a h found =
    let held = on_response go r c in
    let same : held ≡ record c { reader = holding n r } = on_response-held go r c n a h found in
    let holds : held.reader ≡ holding n r = ap (λ (x : Connection). x.reader) same in
    let first : close http held ≡ close_first http held =
      close-first http held (ap (λ (x : Connection). x.closed) same ∙ o) in
    let still : (close http held).reader ≡ holding n r =
      ap (λ (x : Connection). x.reader) first ∙ close_first-reader http held ∙ holds in
    let pending : held.pending (key n) ≡ some n =
      ap (λ (x : Connection). x.pending (key n)) same
      ∙ pending_itself c (Reach-IsOwned go http reach).keyed n _ found in
    (
      holds,
      closes,
      delivers n r still,
      ap (λ x. (deliver n r x).reader) first ∙ close-crashed n r held pending,
      later (later (later reach (receives r e)) closes) (delivers n r still),
    )
