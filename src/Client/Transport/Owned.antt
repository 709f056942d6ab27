-- ===== src/Client/Transport/Owned.antt =====
-- Each response in a connection is kept under the call whose request it answers: what that means, and
-- that the operations of a call and of the reader keep it so.
use mcp_module.Common.{
  ℕ, ◌+◌, Bool, true, false, Option, none, some, ◌≡◌, inl, inr, refl, sym, ap, subst, ◌∙◌,
  Bool-cases,
}
use mcp_module.Common.Int.{ℤ}
use mcp_module.Json.{Any, int64, is_absent, Runtime}
use mcp_module.Protocol.{Response}
use mcp_module.Protocol.Ids.{normalize_id, is_hashable}
use mcp_module.Client.Transport.{
  Channel, made, Caller, waiting, failed, answered, reading, holding, crashed, Panic, unhashable,
  closed_channel, Connection, key, bits_of, update, new_connection, register, waste, leave,
  find_pending, hold, on_response, offer, delivered, close_all,
}
use mcp_module.Client.Transport.Updates.{update-cases, update-field}

abbrev pub buffer_of : Channel → Option Response
buffer_of ch = ch.buffer

-- The id of the response, normalized as the client does it, is that of the call's request.
abbrev pub IsOwn : Runtime → ℕ → Response → Type 0
IsOwn go n r = (z : ℤ) × (normalize_id go r.id ≡ int64 z) × (bits_of z ≡ key n)

pub record IsOwned (go : Runtime) (c : Connection) : Type 0 where
  pub keyed : (k n : ℕ) → c.pending k ≡ some n → key n ≡ k
  pub buffered : (n : ℕ) (r : Response) → (c.channel n).buffer ≡ some r → IsOwn go n r
  pub held : (n : ℕ) (r : Response) → c.reader ≡ holding n r → IsOwn go n r
  pub returned : (n : ℕ) (r : Response) → c.caller n ≡ answered r → IsOwn go n r

module _ (go : Runtime) where
  pub new_connection-IsOwned : IsOwned go new_connection
  unfolding new_connection
  new_connection-IsOwned = record {
    keyed = λ k n e. cc;
    buffered = λ n r e. cc;
    held = λ n r e. cc;
    returned = λ n r e. cc;
  }

  module _ (c : Connection) (o : IsOwned go c) where
    pub register-IsOwned : IsOwned go (register c)
    unfolding register
    register-IsOwned = record {
      keyed = λ k n e. elim (update-cases c.pending (key (c.count + 1)) (some (c.count + 1)) k e) [
        | inl (at, same) ↦ let m : c.count + 1 ≡ n = cc in sym (at ∙ ap key m)
        | inr before ↦ o.keyed k n before
      ];
      buffered = λ n r e. elim (update-field buffer_of c.channel (c.count + 1) made n e) [
        | inl (_, x) ↦ cc
        | inr h ↦ o.buffered n r h
      ];
      held = o.held;
      returned = λ n r e. elim (update-cases c.caller (c.count + 1) waiting n e) [
        | inl (_, x) ↦ cc
        | inr h ↦ o.returned n r h
      ];
    }

    pub leave-IsOwned :
        (n : ℕ) (result : Caller)
        → ((r : Response) → result ≡ answered r → IsOwn go n r)
        → IsOwned go (leave n result c)
    unfolding leave
    leave-IsOwned n result h = record {
      keyed = λ k m e. elim (update-cases c.pending (key n) none k e) [
        | inl (_, x) ↦ cc
        | inr before ↦ o.keyed k m before
      ];
      buffered = o.buffered;
      held = o.held;
      returned = λ m r e. elim (update-cases c.caller n result m e) [
        | inl (at, same) ↦ subst (λ x. IsOwn go x r) (sym at) (h r same)
        | inr before ↦ o.returned m r before
      ];
    }

    pub waste-IsOwned : IsOwned go (waste c)
    unfolding waste
    waste-IsOwned = record {
      keyed = o.keyed;
      buffered = o.buffered;
      held = o.held;
      returned = λ n r e. elim (update-cases c.caller (c.count + 1) failed n e) [
        | inl (_, x) ↦ cc
        | inr before ↦ o.returned n r before
      ];
    }

    pub emptied-IsOwned :
        (n : ℕ)
        → IsOwned go
            (record c { channel = update c.channel n (record (c.channel n) { buffer = none }) })
    emptied-IsOwned n = record {
      keyed = o.keyed;
      buffered = λ m r e.
          elim (update-field buffer_of c.channel n (record (c.channel n) { buffer = none }) m e) [
            | inl (_, x) ↦ cc
            | inr before ↦ o.buffered m r before
          ];
      held = o.held;
      returned = o.returned;
    }

    pub hold-IsOwned :
        (r : Response) (found : Option ℕ)
        → ((n : ℕ) → found ≡ some n → IsOwn go n r)
        → IsOwned go (hold c r found)
    unfolding hold
    hold-IsOwned r none h = o
    hold-IsOwned r (some n) h = record {
      keyed = o.keyed;
      buffered = o.buffered;
      held = λ m r' e.
          let same : n ≡ m = cc in
          let response : r ≡ r' = cc in
          subst (IsOwn go m) response (subst (λ x. IsOwn go x r) same (h n refl));
      returned = o.returned;
    }

    pub crashed-IsOwned : (p : Panic) → IsOwned go (record c { reader = crashed p })
    crashed-IsOwned p = record {
      keyed = o.keyed;
      buffered = o.buffered;
      held = λ m r e. cc;
      returned = o.returned;
    }

    find_pending-IsOwn :
        (r : Response) (a : Any) (n : ℕ)
        → normalize_id go r.id ≡ a
        → find_pending c a ≡ some n
        → IsOwn go n r
    unfolding find_pending
    find_pending-IsOwn r (int64 z) n e found = (z, e, sym (o.keyed (bits_of z) n found))
    find_pending-IsOwn r _ n e found = cc

    pub on_response-IsOwned : (r : Response) → IsOwned go (on_response go r c)
    unfolding on_response
    on_response-IsOwned r = elim (Bool-cases (is_absent r.id)) [
      | inl nil ↦ rw nil o
      | inr other ↦ rw other (elim (Bool-cases (is_hashable (normalize_id go r.id))) [
        | inl good ↦ rw good (hold-IsOwned r _ (λ n found. find_pending-IsOwn r _ n refl found))
        | inr bad ↦ rw bad (crashed-IsOwned unhashable)
      ])
    ]

    pub stored-IsOwned :
        (n : ℕ) (ch : Channel)
        → ((r : Response) → ch.buffer ≡ some r → IsOwn go n r)
        → IsOwned go (record c { reader = reading; channel = update c.channel n ch })
    stored-IsOwned n ch h = record {
      keyed = o.keyed;
      buffered = λ m r e. elim (update-field buffer_of c.channel n ch m e) [
        | inl (at, x) ↦ subst (λ y. IsOwn go y r) (sym at) (h r x)
        | inr before ↦ o.buffered m r before
      ];
      held = λ m r e. cc;
      returned = o.returned;
    }

    pub delivered-IsOwned :
        (n : ℕ) (r : Response) (closed : Bool) (b : Option Response)
        → IsOwn go n r
        → ((r' : Response) → b ≡ some r' → IsOwn go n r')
        → IsOwned go (delivered n c (offer r closed b))
    unfolding delivered offer
    delivered-IsOwned n r true b own h = crashed-IsOwned closed_channel
    delivered-IsOwned n r false none own h =
        stored-IsOwned n _ (λ r' e. let same : r ≡ r' = cc in subst (IsOwn go n) same own)
    delivered-IsOwned n r false (some x) own h = stored-IsOwned n _ h

    pub close_all-IsOwned : IsOwned go (close_all c)
    unfolding close_all
    close_all-IsOwned = record {
      keyed = λ k n e. cc;
      buffered = o.buffered;
      held = o.held;
      returned = o.returned;
    }
