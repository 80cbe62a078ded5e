-- ===== src/Pipe/Callbacks/Branches.antt =====
-- lib/proto/proto_pipe.c: the states that the callbacks leave a pipe in.
use spiped.Base.{
  ℕ, suc, ◌≤◌, ◌<◌, ◌≡◌, ◌⊎◌, ◌↔◌, refl, sym, inl, inr, true, false, Option, none, some, [], length,
  ◌==◌, ℤ, pos, negsuc, minus_one, arith, Bool-cases, subst, ◌&&◌, not,
}
use spiped.Primitives.{Primitives, IsDocumented}
use spiped.Pipe.{LoopEnd, finished, refused, aborted, unfinished}
use spiped.Pipe.Loop.{process, minread_of, full_buflen_of}
use spiped.Pipe.Loop.Safety.{EndsWell, process-EndsWell}
use spiped.Pipe.Callbacks.{
  Ending, zero_status, upstream, upstream_failed, abort, Errno, ebadf, enotconn, econnreset,
  Answers, PipeCookie, eof, after_loop, callback_pipe_read, callback_pipe_write,
}

module _ (p : Primitives) where
  -- The pipe waits for input, or writes all of what is in `outbuf`, which is not empty and fits.
  abbrev pub IsActive : PipeCookie p → Type 0
  IsActive c =
      ((c.waiting ≡ true) × (c.writing ≡ false))
      ⊎ ((c.waiting ≡ false)
          × (c.writing ≡ true)
          × (0 < c.wlen)
          × (c.wlen ≡ length c.outbuf)
          × (c.wlen ≤ 8480))

  abbrev pub IsOver : PipeCookie p → Type 0
  IsOver c =
      (c.waiting ≡ false) × (c.writing ≡ false) × ((c.status ≡ pos 0) ⊎ (c.status ≡ minus_one))

  abbrev pub IsSized : PipeCookie p → Type 0
  IsSized c = (c.minread ≡ minread_of c.decr) × (c.full_buflen ≡ full_buflen_of c.decr)

  -- What a callback has done: it returns 0, and the pipe is active and its status as it was; or
  -- the upstream was called, and the pipe is over, with status 0 or -1.
  abbrev pub Settles : ℤ → PipeCookie p × Ending → Type 0
  Settles status (c, zero_status) = IsSized c × IsActive c × (c.status ≡ status)
  Settles status (c, upstream) = IsSized c × IsOver c
  Settles status (c, upstream_failed) = IsSized c × IsOver c × (c.status ≡ minus_one)
  Settles status (c, abort) = ⊥

module _ (p : Primitives) (d : IsDocumented p) where
  after_loop-Settles :
      (a : Answers) (c : PipeCookie p) (e : LoopEnd p)
      → IsSized p c
      → (c.waiting ≡ false) × (c.writing ≡ false)
      → EndsWell p c.decr (length c.buffered) e
      → Settles p c.status (after_loop p a c e)
  unfolding after_loop EndsWell
  after_loop-Settles a c (finished inpos out k') sized idle well = ground arith
  after_loop-Settles a c (refused k') sized idle well = ground arith
  after_loop-Settles a c aborted sized idle well = absurd well
  after_loop-Settles a c unfinished sized idle well = absurd well

  eof-Settles :
      (r : Option Errno) (c : PipeCookie p)
      → IsSized p c
      → (c.waiting ≡ false) × (c.writing ≡ false)
      → Settles p c.status (eof p r c)
  unfolding eof
  eof-Settles none c sized idle = ground arith
  eof-Settles (some ebadf) c sized idle = ground arith
  eof-Settles (some _) c sized idle = ground arith

  loop-EndsWell :
      (c : PipeCookie p)
      → IsSized p c
      → EndsWell p c.decr
          (length c.buffered)
          (process p (suc (length c.buffered)) c.decr c.full_buflen c.k c.buffered 0 [])
  loop-EndsWell c sized =
      subst
        (λ (n : ℕ).
          EndsWell p c.decr (length c.buffered)
            (process p (suc (length c.buffered)) c.decr n c.k c.buffered 0 []))
        (sym sized.1) (process-EndsWell p d c.decr c.k c.buffered)

  -- From a pipe that waits, the read callback, on each status and whatever its calls report,
  -- returns 0 with the pipe active and its status as it was, or it calls upstream with the pipe
  -- over. No assertion fails, and what it starts to write is not empty and fits `outbuf`.
  pub callback_pipe_read-Settles :
      (a : Answers) (status : ℤ) (c : PipeCookie p)
      → IsSized p c
      → c.waiting ≡ true
      → c.writing ≡ false
      → Settles p c.status (callback_pipe_read p a status c)
  unfolding callback_pipe_read
  callback_pipe_read-Settles a (pos n) c sized waits idle =
      let c' : PipeCookie p = record c { waiting = false } in
      elim (Bool-cases (n == 1)) [
        | inl e ↦ rw e (elim (Bool-cases (c.decr && not (length c.buffered == 0))) [
          | inl cut ↦ rw cut (sized, (refl, idle, inr refl))
          | inr clean ↦ rw clean (eof-Settles a.shutdown c' sized (refl, idle))
        ])
        | inr e ↦ rw e (after_loop-Settles a c' _ sized (refl, idle) (loop-EndsWell c sized))
      ]
  callback_pipe_read-Settles a (negsuc n) c sized waits idle =
      let c' : PipeCookie p = record c { waiting = false } in
      elim (Bool-cases (n == 0)) [
        | inl e ↦ rw e (sized, (refl, idle, inr refl))
        | inr e ↦ rw e (after_loop-Settles a c' _ sized (refl, idle) (loop-EndsWell c sized))
      ]

  -- From a pipe that writes, the write callback, on each length, returns 0 with the pipe active and
  -- its status as it was, or it calls upstream with the pipe over.
  pub callback_pipe_write-Settles :
      (a : Answers) (len : ℤ) (c : PipeCookie p)
      → IsSized p c
      → c.waiting ≡ false
      → c.writing ≡ true
      → Settles p c.status (callback_pipe_write p a len c)
  unfolding callback_pipe_write
  callback_pipe_write-Settles a len c sized idle writes = ground arith

module _ (p : Primitives) where
  -- The end of the input is a clean end, with status 0, exactly when the pipe encrypts or has no
  -- part of a packet left, and `shutdown` works or finds the connection gone. Otherwise the status
  -- is -1.
  pub callback_pipe_read_eof :
      (a : Answers) (c : PipeCookie p)
      → let c' = (callback_pipe_read p a (pos 1) c).0 in
        ((c'.status ≡ pos 0) ↔ (
          ((c.decr ≡ false) ⊎ (length c.buffered ≡ 0))
          × ((a.shutdown ≡ none)
              ⊎ ((a.shutdown ≡ some enotconn) ⊎ (a.shutdown ≡ some econnreset)))))
        × ((c'.status ≡ pos 0) ⊎ (c'.status ≡ minus_one))
  unfolding callback_pipe_read
  callback_pipe_read_eof a c = ground arith
