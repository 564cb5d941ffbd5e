-- ===== src/Reactor/Echo.antt =====
-- What a connection of Linux_Net/Reactor/02_epoll_loop.c is sent.
use learning_cpp.Prelude.{
  ℕ, ◌<◌, ◌≡◌, refl, ap, sym, ◌∙◌, arith, true, false, some, List, [], ◌∷◌, Bytes, length, take,
  take-append,
}
use learning_cpp.Reactor.{
  MyEvent, Events, Callback, Call, Loop, Answers, Ready, has_in, max_events, buflen, run_callback,
  dispatch, dispatch_all,
}
use learning_cpp.Reactor.Slots.{
  with_slot, watched, filled, set_at_self, recvdata_bytes, senddata_some,
}
use learning_cpp.Reactor.Conserved.{Sound}
use learning_cpp.Reactor.Runs.{
  Reported, run_recvdata, run_senddata, dispatched, dispatched_all, still-Reported,
}

some_injective : {s t : Loop} → some s ≡ some t → s ≡ t
some_injective e = cc

module _ (s : Loop) (r : Ready) (k : Sound s) (h : r.slot < max_events)
    (on : (s.g_events r.slot).status ≡ true)
    (reads : has_in (s.g_events r.slot).events ≡ true) where
  -- The element once it has received `bytes`.
  abbrev holding : Bytes → MyEvent
  holding bytes =
      watched r.slot s (s.g_events r.slot).fd Callback.to_senddata Events.epollout r.on_read.now
        (filled r.slot s on r.on_read bytes)

  received :
      (c : ℕ) (bytes : Bytes)
      → r.readable ≡ true
      → r.writable ≡ false
      → r.on_read.recv ≡ some (c ∷ bytes)
      → length (c ∷ bytes) < buflen
      → dispatch r s
        ≡ some (
            with_slot r.slot
              (holding (c ∷ bytes))
              (Call.control_add (s.g_events r.slot).fd
                ∷ Call.control_del (s.g_events r.slot).fd
                ∷ [])
              s)
  unfolding dispatch
  received c bytes readable quiet e short =
      let (own, talk) = k.talks r.slot h on in
      let reader : (s.g_events r.slot).call_back ≡ Callback.to_recvdata = ground arith in
      let run =
        run_recvdata r.slot r.on_read s reader own
        ∙ recvdata_bytes r.slot s on r.on_read (s.g_events r.slot).fd c bytes e short in
      rw (readable, reads, run, quiet) refl

-- An element that is written.
replied :
    (i : ℕ) (b : Answers) (s : Loop) (c : ℕ) (bytes : Bytes)
    → (s.g_events i).status ≡ true
    → (s.g_events i).call_back ≡ Callback.to_senddata
    → (s.g_events i).arg ≡ i
    → take (s.g_events i).len (s.g_events i).buf ≡ c ∷ bytes
    → 0 < b.send
    → (s' : Loop) × (run_callback i b s ≡ some s')
      × (s'.calls
          ≡ Call.control_add (s.g_events i).fd
            ∷ Call.control_del (s.g_events i).fd
            ∷ Call.sent (s.g_events i).fd (take b.send (c ∷ bytes))
            ∷ s.calls)
      × (has_in (s'.g_events i).events ≡ true)
replied i b s c bytes on writer own holds sends = (
  _,
  run_senddata i b s writer own ∙ ap some (senddata_some i s on b (s.g_events i).fd sends),
  rw holds refl,
  rw set_at_self refl,
)

-- A watched connection that waits to be read and gets some bytes, less than 4096: when the other
-- events of the batch have been handled, whatever they are, and it is ready to be written, `send` is
-- given these bytes again and sends as many of them as the system takes, and the connection waits to
-- be read. What the system does not take is not sent.
pub echo :
    (s : Loop) (r : Ready) (rs : List Ready) (c : ℕ) (bytes : Bytes) (b : Answers)
    → Sound s
    → Reported s (r ∷ rs)
    → r.slot < max_events
    → has_in (s.g_events r.slot).events ≡ true
    → r.readable ≡ true
    → r.writable ≡ false
    → r.on_read.recv ≡ some (c ∷ bytes)
    → 0 < b.send
    → let fd = (s.g_events r.slot).fd in
      (s2 : Loop) × (dispatch_all (r ∷ rs) s ≡ some s2)
      × (s3 : Loop) × (run_callback r.slot b s2 ≡ some s3)
      × (s3.calls
          ≡ Call.control_add fd
            ∷ Call.control_del fd
            ∷ Call.sent fd (take b.send (c ∷ bytes))
            ∷ s2.calls)
      × (has_in (s3.g_events r.slot).events ≡ true)
unfolding dispatch_all
echo s r rs c bytes b k h below reads readable quiet e sends =
    let on = h.0.1 in
    let d = dispatched r h.0.0 h.0.2 h.0.3 s k on in
    let got = received s r k below on reads c bytes readable quiet e (h.0.2 (c ∷ bytes) e) in
    let same : d.after ≡ _ = some_injective (sym d.made ∙ got) in
    let held : d.after.g_events r.slot ≡ holding s r k below on reads (c ∷ bytes) =
      rw (same, set_at_self) refl in
    let (s2, made, sound, kept) =
      dispatched_all rs d.after d.ran.sound (still-Reported r.slot s d.after rs d.ran h.1 h.2) in
    let own : s2.g_events r.slot ≡ holding s r k below on reads (c ∷ bytes) =
      kept r.slot h.1 (rw held refl) ∙ held in
    let (s3, ran, calls, waits) =
      replied r.slot b s2 c bytes (rw own refl) (rw own refl) (rw own refl)
        (rw own (take-append (c ∷ bytes) _)) sends in
    (s2, rw (d.made, dispatch_all) made, s3, ran, rw own at calls, waits)
