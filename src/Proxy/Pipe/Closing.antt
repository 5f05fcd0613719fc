-- ===== src/Proxy/Pipe/Closing.antt =====
-- About `pipe` of internal/common/byteproxy/byteproxy.go: what has happened when it returns.
use arc_remote_signer.Common.{
  ℕ, ◌+◌, ◌≤◌, ◌<◌, Bool, true, ◌&&◌, List, [], ◌∷◌, ltb, ◌≡◌, refl, arith, ◌⊎◌, inl, inr,
  Bool-cases,
}
use arc_remote_signer.Proxy.Pipe.{
  copy_done_capacity, Copy, copying, copied, closed_other, sent, Pipe, to_upstream, to_inbound,
  Event, copy_ends, copy_closes, copy_sends, receive, notice_shutdown, new_pipe, upstream_step,
  inbound_step, receive_step, notice_step, pipe_step, run_pipe, pipe_returns,
}

abbrev sends : Copy → ℕ
sends sent = 1
sends _ = 0

-- A copy that is past its `Close` has closed the other side.
abbrev HasClosed : Copy → Bool → Type 0
HasClosed closed_other b = b ≡ true
HasClosed sent b = b ≡ true
HasClosed _ b = Unit

record Inv (p : Pipe) : Type 0 where
  balance : p.queued + p.finished ≡ sends p.to_upstream + sends p.to_inbound
  upstream : HasClosed p.to_upstream p.upstream_closed
  inbound : HasClosed p.to_inbound p.inbound_closed

upstream-Inv :
    (p : Pipe) (c : Copy) (e : Event) → p.to_upstream ≡ c → Inv p → Inv (upstream_step p c e)
unfolding upstream_step
upstream-Inv p copying (copy_ends to_upstream) h v = ground arith
upstream-Inv p copied (copy_closes to_upstream) h v = ground arith
upstream-Inv p closed_other (copy_sends to_upstream) h v = ground arith
upstream-Inv p c e h v = v

inbound-Inv :
    (p : Pipe) (c : Copy) (e : Event) → p.to_inbound ≡ c → Inv p → Inv (inbound_step p c e)
unfolding inbound_step
inbound-Inv p copying (copy_ends to_inbound) h v = ground arith
inbound-Inv p copied (copy_closes to_inbound) h v = ground arith
inbound-Inv p closed_other (copy_sends to_inbound) h v = ground arith
inbound-Inv p c e h v = v

receive-Inv : (p : Pipe) → Inv p → Inv (receive_step p)
unfolding receive_step
receive-Inv p v = ground arith

-- Closing both connections keeps what the copies have closed.
HasClosed-true : (c : Copy) → HasClosed c true
HasClosed-true copying = tt
HasClosed-true copied = tt
HasClosed-true closed_other = refl
HasClosed-true sent = refl

notice-Inv : (shut : Bool) (p : Pipe) → Inv p → Inv (notice_step shut p)
unfolding notice_step
notice-Inv shut p v = elim (Bool-cases (ltb p.finished 2 && (shut && p.watching))) [
  | inl y ↦ ground (arith, HasClosed-true p.to_upstream, HasClosed-true p.to_inbound)
  | inr y ↦ rw y v
]

pipe_step-Inv : (shut : Bool) (p : Pipe) (e : Event) → Inv p → Inv (pipe_step shut p e)
unfolding pipe_step
pipe_step-Inv shut p (copy_ends to_upstream) v = upstream-Inv p p.to_upstream _ refl v
pipe_step-Inv shut p (copy_closes to_upstream) v = upstream-Inv p p.to_upstream _ refl v
pipe_step-Inv shut p (copy_sends to_upstream) v = upstream-Inv p p.to_upstream _ refl v
pipe_step-Inv shut p (copy_ends to_inbound) v = inbound-Inv p p.to_inbound _ refl v
pipe_step-Inv shut p (copy_closes to_inbound) v = inbound-Inv p p.to_inbound _ refl v
pipe_step-Inv shut p (copy_sends to_inbound) v = inbound-Inv p p.to_inbound _ refl v
pipe_step-Inv shut p receive v = receive-Inv p v
pipe_step-Inv shut p notice_shutdown v = notice-Inv shut p v

run_pipe-Inv : (p : Pipe) (es : List (Bool × Event)) → Inv p → Inv (run_pipe p es)
unfolding run_pipe
run_pipe-Inv p [] v = v
run_pipe-Inv p ((shut, e) ∷ es) v = run_pipe-Inv (pipe_step shut p e) es (pipe_step-Inv shut p e v)

-- Both copies have ended, and both connections are closed.
pub record IsFinished (p : Pipe) : Type 0 where
  pub upstream_sent : p.to_upstream ≡ sent
  pub inbound_sent : p.to_inbound ≡ sent
  pub upstream_closed : p.upstream_closed ≡ true
  pub inbound_closed : p.inbound_closed ≡ true
  pub nothing_queued : p.queued ≡ 0

returned-IsFinished :
    (p : Pipe) (a b : Copy)
    → p.to_upstream ≡ a
    → p.to_inbound ≡ b
    → Inv p
    → pipe_returns p ≡ true
    → IsFinished p
unfolding pipe_returns
returned-IsFinished p sent sent h k v r = ground arith
returned-IsFinished p a b h k v r = absurd (ground arith)

-- However the two copies, the waiting loop and a shutdown of the proxy interleave, when `pipe`
-- returns both copies have ended and sent, both connections are closed, and nothing is left in
-- `copyDone`.
pub pipe_returns-IsFinished :
    (es : List (Bool × Event))
    → pipe_returns (run_pipe new_pipe es) ≡ true
    → IsFinished (run_pipe new_pipe es)
pipe_returns-IsFinished es r =
    let p = run_pipe new_pipe es in
    returned-IsFinished p p.to_upstream p.to_inbound refl refl
      (run_pipe-Inv new_pipe es (record { balance = refl; upstream = tt; inbound = tt })) r

-- In every reachable state in which a copy wants to send on `copyDone`, the channel has room, so
-- the copy never blocks there.
pub copy_never_blocks :
    (es : List (Bool × Event))
    → ((run_pipe new_pipe es).to_upstream ≡ closed_other)
      ⊎ ((run_pipe new_pipe es).to_inbound ≡ closed_other)
    → (run_pipe new_pipe es).queued < copy_done_capacity
copy_never_blocks es h =
    room (run_pipe new_pipe es) h
      (run_pipe-Inv new_pipe es (record { balance = refl; upstream = tt; inbound = tt }))
  where
    small : (c : Copy) → sends c ≤ 1
    small sent = omega arith
    small copying = omega arith
    small copied = omega arith
    small closed_other = omega arith

    room :
        (p : Pipe)
        → (p.to_upstream ≡ closed_other) ⊎ (p.to_inbound ≡ closed_other)
        → Inv p
        → p.queued < copy_done_capacity
    room p (inl e) v = let b = rw e at v.balance in omega (arith, b, small p.to_inbound)
    room p (inr e) v = let b = rw e at v.balance in omega (arith, b, small p.to_upstream)
