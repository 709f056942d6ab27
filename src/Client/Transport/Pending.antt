-- ===== src/Client/Transport/Pending.antt =====
-- pkg/client: the map of pending requests beside the calls of sendRequest.
use mcp_module.Common.{
  ℕ, ◌+◌, ◌≤◌, Option, none, some, ◌≡◌, ◌≢◌, inl, inr, subst, ◌∙◌, arith, if-both,
}
use mcp_module.Json.{is_absent, Runtime}
use mcp_module.Protocol.{Response}
use mcp_module.Protocol.Ids.{normalize_id, is_hashable}
use mcp_module.Client.Config.{Transport, stdio, http}
use mcp_module.Client.Transport.{
  Channel, Caller, waiting, failed, answered, Reader, reading, ended, holding, crashed, unhashable,
  Connection, key, update, new_connection, register, waste, leave, take, find_pending, hold,
  on_response, delivered, deliver, close_all, end_reading, close_first, close,
}
use mcp_module.Client.Transport.Steps.{
  Step, registers, wastes, gives_up, takes, sees_closed, receives, delivers, ends, closes, Reach,
  start, later,
}
use mcp_module.Client.Transport.Updates.{update_self, update-other, update-cases}
use mcp_module.Client.Transport.Owned.{IsOwned}
use mcp_module.Client.Transport.Ownership.{Reach-IsOwned}

-- What the map binds is the number of a call that has been made and still waits.
pub record IsTidy (c : Connection) : Type 0 where
  pub numbered : (k n : ℕ) → c.pending k ≡ some n → n ≤ c.count
  pub waits : (k n : ℕ) → c.pending k ≡ some n → c.caller n ≡ waiting

module _ (c : Connection) (t : IsTidy c) where
  register-IsTidy : IsTidy (register c)
  unfolding register
  register-IsTidy = record {
    numbered = λ k n e. elim (update-cases c.pending (key (c.count + 1)) (some (c.count + 1)) k e) [
      | inl (_, same) ↦ let new : c.count + 1 ≡ n = cc in omega arith
      | inr before ↦ let its = t.numbered k n before in omega arith
    ];
    waits = λ k n e. elim (update-cases c.pending (key (c.count + 1)) (some (c.count + 1)) k e) [
      | inl (_, same) ↦
          let new : c.count + 1 ≡ n = cc in
          subst (λ x. update c.caller (c.count + 1) waiting x ≡ waiting) new
            (update_self c.caller (c.count + 1) waiting)
      | inr before ↦
          let its = t.numbered k n before in
          update-other c.caller (c.count + 1) waiting n (omega arith) ∙ t.waits k n before
    ];
  }

  waste-IsTidy : IsTidy (waste c)
  unfolding waste
  waste-IsTidy = record {
    numbered = λ k n e. let its = t.numbered k n e in omega arith;
    waits = λ k n e.
        let its = t.numbered k n e in
        update-other c.caller (c.count + 1) failed n (omega arith) ∙ t.waits k n e;
  }

  leave-IsTidy :
      ((k n : ℕ) → c.pending k ≡ some n → key n ≡ k)
      → (n : ℕ) (result : Caller) (f : ℕ → Channel)
      → IsTidy (leave n result (record c { channel = f }))
  unfolding leave
  leave-IsTidy keyed n result f = record {
    numbered = λ k m e. elim (update-cases c.pending (key n) none k e) [
      | inl (_, same) ↦ cc
      | inr before ↦ t.numbered k m before
    ];
    waits = λ k m e.
        let (apart, before) = kept k m e in
        update-other c.caller n result m apart ∙ t.waits k m before;
  }
    where
      kept : (k m : ℕ) → update c.pending (key n) none k ≡ some m → (m ≢ n) × (c.pending k ≡ some m)
      kept k m e = elim (update-cases c.pending (key n) none k e) [
        | inl (_, same) ↦ cc
        | inr before ↦ (
          λ x.
              let own : key n ≡ k = subst (λ i. key i ≡ k) x (keyed k m before) in
              let gone =
                subst (λ i. update c.pending (key n) none i ≡ none) own
                  (update_self c.pending (key n) none) in
              cc,
          before,
        )
      ]

  -- What leaves the calls and the map as they are.
  reader-IsTidy : (x : Reader) (f : ℕ → Channel) → IsTidy (record c { reader = x; channel = f })
  reader-IsTidy x f = record { numbered = t.numbered; waits = t.waits }

  on_response-IsTidy : (go : Runtime) (r : Response) → IsTidy (on_response go r c)
  unfolding on_response
  on_response-IsTidy go r = if-both IsTidy (is_absent r.id) t (
      if-both IsTidy (is_hashable (normalize_id go r.id))
        (hold-IsTidy (find_pending c (normalize_id go r.id)))
        (reader-IsTidy (crashed unhashable) c.channel))
    where
      hold-IsTidy : (o : Option ℕ) → IsTidy (hold c r o)
      hold-IsTidy none = t
      hold-IsTidy (some n) = reader-IsTidy (holding n r) c.channel

  delivered-IsTidy : (n : ℕ) (o : Option Channel) → IsTidy (delivered n c o)
  unfolding delivered
  delivered-IsTidy n none = reader-IsTidy _ c.channel
  delivered-IsTidy n (some ch) = reader-IsTidy reading _

  closed-IsTidy : IsTidy (close_all c)
  unfolding close_all
  closed-IsTidy = record { numbered = λ k n e. cc; waits = λ k n e. cc }

end_reading-IsTidy : (t : Transport) (c : Connection) → IsTidy c → IsTidy (end_reading t c)
unfolding end_reading
end_reading-IsTidy stdio c h = reader-IsTidy (close_all c) (closed-IsTidy c h) ended _
end_reading-IsTidy http c h = reader-IsTidy c h ended c.channel

close_first-IsTidy : (t : Transport) (c : Connection) → IsTidy c → IsTidy (close_first t c)
unfolding close_first close_all
close_first-IsTidy stdio c h = record { numbered = h.numbered; waits = h.waits }
close_first-IsTidy http c h = record { numbered = λ k n e. cc; waits = λ k n e. cc }

module _ (go : Runtime) (t : Transport) where
  Step-IsTidy : {c d : Connection} → IsOwned go c → Step go t c d → IsTidy c → IsTidy d
  unfolding take deliver close
  Step-IsTidy {c} o registers h = register-IsTidy c h
  Step-IsTidy {c} o wastes h = waste-IsTidy c h
  Step-IsTidy {c} o (gives_up n _) h = leave-IsTidy c h o.keyed n failed c.channel
  Step-IsTidy {c} o (takes n r _ _) h = leave-IsTidy c h o.keyed n (answered r) _
  Step-IsTidy {c} o (sees_closed n _ _ _) h = leave-IsTidy c h o.keyed n failed c.channel
  Step-IsTidy {c} o (receives r _) h = on_response-IsTidy c h go r
  Step-IsTidy {c} o (delivers n r _) h = delivered-IsTidy c h n _
  Step-IsTidy {c} o (ends _) h = end_reading-IsTidy t c h
  Step-IsTidy {c} o closes h = if-both IsTidy c.closed h (close_first-IsTidy t c h)

  -- In either client, and in whatever order its calls, its reader and Close take their steps, every
  -- request in the map of pending requests belongs to a call that waits: a call that has returned,
  -- with a response or with an error, has left none behind.
  pub Reach-IsTidy : {c : Connection} → Reach go t c → IsTidy c
  unfolding new_connection
  Reach-IsTidy start = record { numbered = λ k n e. cc; waits = λ k n e. cc }
  Reach-IsTidy (later r s) = Step-IsTidy (Reach-IsOwned go t r) s (Reach-IsTidy r)
