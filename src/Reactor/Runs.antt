-- ===== src/Reactor/Runs.antt =====
-- Runs of the loop of Linux_Net/Reactor/02_epoll_loop.c.
use learning_cpp.Prelude.{
  ℕ, ◌<◌, ◌≤◌, ◌==◌, ◌≡◌, ◌≢◌, refl, sym, ◌∙◌, arith, true, ◌&&◌, inl, inr, Bool-cases, some, List,
  [], ◌∷◌, All,
}
use learning_cpp.Reactor.{
  Callback, Loop, Answers, Ready, has_in, has_out, max_events, recvdata, senddata, acceptconn,
  run_callback, write_part, dispatch, dispatch_all,
}
use learning_cpp.Reactor.Conserved.{Sound, Talks}
use learning_cpp.Reactor.Safe.{
  Ran, NoStaleWrite, IsShort, recvdata-Ran, senddata-Ran, acceptconn-Ran,
}

-- The callback of a watched element. After one that was ready to read, no stale write is left.
Called : ℕ → Answers → Loop → Type 0
Called i a s =
    (s' : Loop) × (run_callback i a s ≡ some s')
    × Ran i s s'
    × (has_in (s.g_events i).events ≡ true → NoStaleWrite i s')

module _ (i : ℕ) (a : Answers) (s : Loop) where
  pub run_recvdata :
      (s.g_events i).call_back ≡ Callback.to_recvdata
      → (s.g_events i).arg ≡ i
      → run_callback i a s ≡ recvdata (s.g_events i).fd i a s
  unfolding run_callback
  run_recvdata c own = rw (run_callback, c, own) refl

  pub run_senddata :
      (s.g_events i).call_back ≡ Callback.to_senddata
      → (s.g_events i).arg ≡ i
      → run_callback i a s ≡ some (senddata (s.g_events i).fd i a s)
  unfolding run_callback
  run_senddata c own = rw (run_callback, c, own) refl

  run_acceptconn :
      (s.g_events i).call_back ≡ Callback.to_acceptconn → run_callback i a s ≡ some (acceptconn a s)
  unfolding run_callback
  run_acceptconn c = rw (run_callback, c) refl

module _ (i : ℕ) (a : Answers) (s : Loop) (k : Sound s) (short : IsShort a) where
  Called-connection :
      i < max_events → (s.g_events i).status ≡ true → Talks i (s.g_events i) → Called i a s
  unfolding Called
  Called-connection h on (own, inl (c, e)) =
      let (s', made, ran, fresh) = recvdata-Ran i a s h k on (rw e refl) short in
      (s', run_recvdata i a s c own ∙ made, ran, λ _. fresh)
  Called-connection h on (own, inr (c, e)) =
      (_, run_senddata i a s c own, senddata-Ran i a s h k on, λ reads. absurd (ground arith))

  Called-listener : i ≡ max_events → Called i a s
  unfolding Called
  Called-listener last =
      let ran = acceptconn-Ran a s k in
      let still = ran.sound.listens in
      (
        acceptconn a s,
        run_acceptconn i a s (rw last k.listens.1),
        rw last ran,
        λ _. inl (rw last still.0),
      )

  called : i ≤ max_events → (s.g_events i).status ≡ true → Called i a s
  called h on = elim (Bool-cases (i == max_events)) [
    | inl e ↦ Called-listener (ground arith)
    | inr e ↦ Called-connection (ground arith) on (k.talks i (ground arith) on)
  ]

-- A state after an element of `events`.
pub record Dispatched (r : Ready) (s : Loop) : Type 0 where
  pub after : Loop
  pub made : dispatch r s ≡ some after
  pub ran : Ran r.slot s after

Ran-refl : (i : ℕ) (s : Loop) → Sound s → Ran i s s
Ran-refl i s k = record { sound = k; stays = λ j away on. refl }

Ran-trans : (i : ℕ) (s t u : Loop) → Ran i s t → Ran i t u → Ran i s u
Ran-trans i s t u p q = record {
  sound = q.sound;
  stays = λ j away on. q.stays j away (rw (p.stays j away on) on) ∙ p.stays j away on;
}

module _ (r : Ready) (h : r.slot ≤ max_events) (reads : IsShort r.on_read)
    (writes : IsShort r.on_write) where
  write_part-Ran :
      (s : Loop)
      → Sound s
      → NoStaleWrite r.slot s
      → (s' : Loop) × (write_part r s ≡ some s') × Ran r.slot s s'
  unfolding Called
  write_part-Ran s k fresh = elim (Bool-cases (r.writable && has_out (s.g_events r.slot).events)) [
    | inl e ↦
        let (s', made, ran, _) = called r.slot r.on_write s k writes h (ground (arith, fresh)) in
        (s', rw e made, ran)
    | inr e ↦ (s, rw e refl, Ran-refl r.slot s k)
  ]

  pub dispatched : (s : Loop) → Sound s → (s.g_events r.slot).status ≡ true → Dispatched r s
  unfolding dispatch Called
  dispatched s k on = elim (Bool-cases (r.readable && has_in (s.g_events r.slot).events)) [
    | inl e ↦
        let (s', made, ran, fresh) = called r.slot r.on_read s k reads h on in
        let (u, wrote, ran_on) = write_part-Ran s' ran.sound (fresh (ground arith)) in
        record {
          after = u;
          made = rw (e, dispatch, made) wrote;
          ran = Ran-trans r.slot s s' u ran ran_on;
        }
    | inr e ↦
        let (u, wrote, ran) = write_part-Ran s k (inl on) in
        record { after = u; made = rw (e, dispatch) wrote; ran = ran }
  ]

-- What `epoll_wait` may report: watched elements, each once, with answers that fit the buffer.
abbrev pub Reported : Loop → List Ready → Type 0
Reported s [] = Unit
Reported s (r ∷ rs) =
    ((r.slot ≤ max_events)
      × ((s.g_events r.slot).status ≡ true)
      × IsShort r.on_read
      × IsShort r.on_write)
    × All (λ q. q.slot ≢ r.slot) rs
    × Reported s rs

pub still-Reported :
    (i : ℕ) (s s' : Loop) (rs : List Ready)
    → Ran i s s'
    → All (λ q. q.slot ≢ i) rs
    → Reported s rs
    → Reported s' rs
still-Reported i s s' [] ran away h = tt
still-Reported i s s' (r ∷ rs) ran away h = (
  (h.0.0, rw (ran.stays r.slot away.0 h.0.1) h.0.1, h.0.2, h.0.3),
  h.1,
  still-Reported i s s' rs ran away.1 h.2,
)

-- What is watched and not reported stays as it is.
abbrev pub Untouched : List Ready → Loop → Loop → Type 0
Untouched rs s s' =
    (j : ℕ) → All (λ r. r.slot ≢ j) rs → (s.g_events j).status ≡ true → s'.g_events j ≡ s.g_events j

pub dispatched_all :
    (rs : List Ready) (s : Loop)
    → Sound s
    → Reported s rs
    → (s' : Loop) × (dispatch_all rs s ≡ some s') × Sound s' × Untouched rs s s'
unfolding dispatch_all
dispatched_all [] s k h = (s, refl, k, λ j away on. refl)
dispatched_all (r ∷ rs) s k h =
    let d = dispatched r h.0.0 h.0.2 h.0.3 s k h.0.1 in
    let (s', made, sound, same) =
      dispatched_all rs d.after d.ran.sound (still-Reported r.slot s d.after rs d.ran h.1 h.2) in
    (
      s',
      rw (d.made, dispatch_all) made,
      sound,
      λ j away on.
          let first = d.ran.stays j (λ e. away.0 (sym e)) on in same j away.1 (rw first on) ∙ first,
    )
