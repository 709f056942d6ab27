-- ===== src/Client/Transport/Waking.antt =====
-- pkg/client/stdio_client.go: the calls that wait when the server's output ends.
use mcp_module.Common.{
  ℕ, ◌+◌, ◌^◌, ◌≤◌, ◌<◌, true, Option, none, some, ◌≡◌, ◌≢◌, ◌⊎◌, inl, inr, refl, sym, subst, ◌∙◌,
  arith, Option-cases, if-both,
}
use mcp_module.Json.{is_absent, Runtime}
use mcp_module.Protocol.{Response}
use mcp_module.Protocol.Ids.{normalize_id, is_hashable}
use mcp_module.Client.Config.{stdio}
use mcp_module.Client.Transport.{
  Channel, Caller, waiting, failed, answered, Reader, reading, ended, holding, crashed, unhashable,
  Connection, key, update, new_connection, register, waste, leave, take, find_pending, hold,
  on_response, offer, delivered, deliver, close_all, end_reading, close_first, close,
}
use mcp_module.Client.Transport.Calls.{got, gave_up, channel_closed, on_channel, wake, receive}
use mcp_module.Client.Transport.Steps.{
  Step, registers, wastes, gives_up, takes, sees_closed, receives, delivers, ends, closes, Reach,
  start, later,
}
use mcp_module.Client.Transport.Updates.{update_self, update-other, update-cases}

-- A call that waits has its number from the counter, and its channel is found under its key as long
-- as the reader has not ended.
record IsListed (c : Connection) : Type 0 where
  numbered : (n : ℕ) → c.caller n ≡ waiting → n ≤ c.count
  listed : c.reader ≢ ended → (n : ℕ) → c.caller n ≡ waiting → c.pending (key n) ≡ some n

le_lt : {a b k : ℕ} → a ≤ b → b < k → a < k
le_lt h l = omega arith

module _ (c : Connection) (few : c.count < 2 ^ 64) (l : IsListed c) where
  -- A call that returns takes only its own key away.
  leave-IsListed :
      (n : ℕ) (result : Caller)
      → c.caller n ≡ waiting
      → result ≢ waiting
      → IsListed (leave n result c)
  unfolding leave
  leave-IsListed n result waits done = record {
    numbered = λ m e. l.numbered m (still m e).1;
    listed = λ going m e.
        let (apart, before) = still m e in
        let mine = l.numbered n waits in
        let its = l.numbered m before in
        update-other c.pending (key n) none (key m) (omega arith) ∙ l.listed going m before;
  }
    where
      still : (m : ℕ) → update c.caller n result m ≡ waiting → (m ≢ n) × (c.caller m ≡ waiting)
      still m e = elim (update-cases c.caller n result m e) [
        | inl (_, x) ↦ absurd (done x)
        | inr before ↦ (
          λ same. done (
              sym (update_self c.caller n result)
              ∙ (subst (λ x. update c.caller n result x ≡ waiting) same e)),
          before,
        )
      ]

  -- A new call has a key of its own.
  register-IsListed : (register c).count < 2 ^ 64 → IsListed (register c)
  unfolding register
  register-IsListed fits = record {
    numbered = λ m e. elim (update-cases c.caller (c.count + 1) waiting m e) [
      | inl (new, _) ↦ omega arith
      | inr before ↦ let its = l.numbered m before in omega arith
    ];
    listed = λ going m e. elim (update-cases c.caller (c.count + 1) waiting m e) [
      | inl (new, _) ↦ rw new (update_self c.pending (key (c.count + 1)) (some (c.count + 1)))
      | inr before ↦
          let its = l.numbered m before in
          update-other c.pending (key (c.count + 1)) (some (c.count + 1)) (key m) (omega arith)
          ∙ l.listed going m before
    ];
  }

  waste-IsListed : IsListed (waste c)
  unfolding waste
  waste-IsListed = record {
    numbered = λ m e. elim (update-cases c.caller (c.count + 1) failed m e) [
      | inl (_, x) ↦ cc
      | inr before ↦ let its = l.numbered m before in omega arith
    ];
    listed = λ going m e. elim (update-cases c.caller (c.count + 1) failed m e) [
      | inl (_, x) ↦ cc
      | inr before ↦ l.listed going m before
    ];
  }

  -- What the reader does to itself and to a channel.
  reader-IsListed :
      (x : Reader) (f : ℕ → Channel)
      → (x ≢ ended → c.reader ≢ ended)
      → IsListed (record c { reader = x; channel = f })
  reader-IsListed x f h = record { numbered = l.numbered; listed = λ going. l.listed (h going) }

  on_response-IsListed :
      (go : Runtime) (r : Response) → c.reader ≡ reading → IsListed (on_response go r c)
  unfolding on_response
  on_response-IsListed go r e = if-both IsListed (is_absent r.id) l (
      if-both IsListed (is_hashable (normalize_id go r.id))
        (hold-IsListed (find_pending c (normalize_id go r.id)))
        (reader-IsListed (crashed unhashable) c.channel (λ _ x. cc)))
    where
      hold-IsListed : (o : Option ℕ) → IsListed (hold c r o)
      hold-IsListed none = l
      hold-IsListed (some n) = reader-IsListed (holding n r) c.channel (λ _ x. cc)

  delivered-IsListed :
      (n : ℕ) {r : Response} (o : Option Channel)
      → c.reader ≡ holding n r
      → IsListed (delivered n c o)
  unfolding delivered
  delivered-IsListed n none e = reader-IsListed _ c.channel (λ _ x. cc)
  delivered-IsListed n (some ch) e = reader-IsListed reading _ (λ _ x. cc)

module _ (go : Runtime) where
  Step-count-le : {c d : Connection} → Step go stdio c d → c.count ≤ d.count
  unfolding register waste leave take on_response hold deliver delivered end_reading close
      close_first close_all
  Step-count-le {c} registers = omega arith
  Step-count-le {c} wastes = omega arith
  Step-count-le {c} (gives_up n _) = omega arith
  Step-count-le {c} (takes n r _ _) = omega arith
  Step-count-le {c} (sees_closed n _ _ _) = omega arith
  Step-count-le {c} (receives r _) =
      ground (arith, Option-cases (find_pending c (normalize_id go r.id)))
  Step-count-le {c} (delivers n r _) =
      ground (arith, Option-cases (offer r (c.channel n).closed (c.channel n).buffer))
  Step-count-le {c} (ends _) = omega arith
  Step-count-le {c} closes = ground arith

  Step-IsListed :
      {c d : Connection}
      → Step go stdio c d
      → d.count < 2 ^ 64
      → c.count < 2 ^ 64
      → IsListed c
      → IsListed d
  unfolding take deliver end_reading close close_first close_all
  Step-IsListed {c} registers fits few l = register-IsListed c few l fits
  Step-IsListed {c} wastes fits few l = waste-IsListed c few l
  Step-IsListed {c} (gives_up n waits) fits few l = leave-IsListed c few l n failed waits (λ x. cc)
  Step-IsListed {c} (takes n r waits _) fits few l =
      leave-IsListed _ few (reader-IsListed c few l c.reader _ (λ x. x)) n (answered r) waits
        (λ x. cc)
  Step-IsListed {c} (sees_closed n waits _ _) fits few l =
      leave-IsListed c few l n failed waits (λ x. cc)
  Step-IsListed {c} (receives r e) fits few l = on_response-IsListed c few l go r e
  Step-IsListed {c} (delivers n r e) fits few l =
      delivered-IsListed c few l n (offer r (c.channel n).closed (c.channel n).buffer) e
  Step-IsListed {c} (ends _) fits few l = record {
    numbered = l.numbered;
    listed = λ going. absurd (going refl);
  }
  Step-IsListed {c} closes fits few l =
      if-both IsListed c.closed l (record { numbered = l.numbered; listed = l.listed })

  Reach-IsListed : {c : Connection} → Reach go stdio c → c.count < 2 ^ 64 → IsListed c
  unfolding new_connection
  Reach-IsListed start few = record { numbered = λ n e. cc; listed = λ going n e. cc }
  Reach-IsListed (later r s) fits =
      let few = le_lt (Step-count-le s) fits in Step-IsListed s fits few (Reach-IsListed r few)

listed_closed :
    (c : Connection) (n : ℕ)
    → c.pending (key n) ≡ some n
    → ((end_reading stdio c).channel n).closed ≡ true
unfolding end_reading close_all
listed_closed c n e = ground (arith, e)

leave-caller : (n : ℕ) (x : Caller) (c : Connection) → (leave n x c).caller n ≡ x
unfolding leave
leave-caller n x c = update_self c.caller n x

pub take-caller : (n : ℕ) (r : Response) (c : Connection) → (take n r c).caller n ≡ answered r
unfolding take
take-caller n r c =
    leave-caller n (answered r)
      (record c { channel = update c.channel n (record (c.channel n) { buffer = none }) })

-- When the reader of the stdio client comes to the end of the server's output, no call is left
-- behind: for each call that waits at that moment the channel of its `select` is ready, so that its
-- next step, without its context or Close, returns the response that the channel holds, or the error
-- that the channel is closed where it holds none (fewer than 2^64 calls having been made).
pub end_reading-wakes :
    (go : Runtime) {c : Connection} (n : ℕ)
    → Reach go stdio c
    → c.count < 2 ^ 64
    → c.reader ≡ reading
    → c.caller n ≡ waiting
    → ((r : Response) × ((c.channel n).buffer ≡ some r)
        × (wake stdio n on_channel (end_reading stdio c)
            ≡ some (take n r (end_reading stdio c), got n r)))
      ⊎ (((c.channel n).buffer ≡ none)
          × (wake stdio n on_channel (end_reading stdio c)
              ≡ some (leave n failed (end_reading stdio c), gave_up n channel_closed)))
unfolding wake receive end_reading close_all
end_reading-wakes go {c} n reach few e waits =
    let l = Reach-IsListed go reach few in
    let going : c.reader ≢ ended = λ x. cc in
    let shut = listed_closed c n (l.listed going n waits) in
    elim (Option-cases (c.channel n).buffer) [
      | inl empty ↦ inr (empty, rw (shut, empty) refl)
      | inr (r, full) ↦ inl (r, full, rw full refl)
    ]
