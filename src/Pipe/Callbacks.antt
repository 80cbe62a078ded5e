-- ===== src/Pipe/Callbacks.antt =====
-- lib/proto/proto_pipe.c: the pipe, its callbacks, and its release.
pub mod Branches
pub mod Data
pub mod Link
use spiped.Base.{
  ℕ, zero, suc, ◌<◌, Bool, true, false, not, ◌&&◌, Option, none, some, [], length, drop, ◌==◌,
  if◌then◌else◌, ℤ, pos, negsuc, minus_one, is_zero, is_minus_one, lt_len,
}
use spiped.Primitives.{Bytes, Primitives}
use spiped.Crypt.Keys.{ProtoKeys}
use spiped.Pipe.{LoopEnd, finished, refused, aborted, unfinished}
use spiped.Pipe.Loop.{process, minread_of, full_buflen_of}

-- How a callback ends: it returns 0, it returns what the upstream callback returns, it calls
-- upstream and returns -1, or an assertion fails.
pub data Ending : Type 0 where
  zero_status upstream upstream_failed abort : Ending

-- What `shutdown` sets `errno` to.
pub data Errno : Type 0 where
  ebadf einval enotsock enotconn econnreset other_errno : Errno

-- What the calls made by one callback report: `shutdown`, `netbuf_read_wait`, `network_write`.
pub record Answers : Type 0 where
  pub shutdown : Option Errno
  pub wait_ok : Bool
  pub write_ok : Bool

module _ (p : Primitives) where
  pub record PipeCookie : Type 0 where
    pub decr : Bool
    pub k : ProtoKeys p
    -- What has been written of `outbuf`.
    pub outbuf : Bytes
    -- What the reader `R` holds, and whether it waits for more.
    pub buffered : Bytes
    pub waiting : Bool
    -- Whether `write_cookie` is set.
    pub writing : Bool
    pub wlen : ℕ
    pub minread : ℕ
    pub full_buflen : ℕ
    -- `*(P->status)`
    pub status : ℤ

  -- `proto_pipe`, by whether the allocation, the reader and the first wait succeed. The status
  -- belongs to the caller.
  unfoldable pub proto_pipe : Bool → Bool → Bool → Bool → ProtoKeys p → ℤ → Option PipeCookie
  proto_pipe alloc_ok reader_ok wait_ok decr k status =
      let cookie : PipeCookie = record {
        decr = decr;
        k = k;
        outbuf = [];
        buffered = [];
        waiting = true;
        writing = false;
        wlen = 0;
        minread = minread_of decr;
        full_buflen = full_buflen_of decr;
        status = status;
      } in
      if alloc_ok && (reader_ok && wait_ok) then some cookie else none

  -- The labels `fail` and `err1`.
  abbrev pub fail : PipeCookie → PipeCookie × Ending
  fail c = (record c { status = minus_one }, upstream)

  abbrev pub err1 : PipeCookie → PipeCookie × Ending
  err1 c = (record c { status = minus_one }, upstream_failed)

  abbrev pub closed : PipeCookie → PipeCookie × Ending
  closed c = (record c { status = pos 0 }, upstream)

  -- The label `eof`.
  pub eof : Option Errno → PipeCookie → PipeCookie × Ending
  eof none c = closed c
  eof (some ebadf) c = err1 c
  eof (some einval) c = err1 c
  eof (some enotsock) c = err1 c
  eof (some enotconn) c = closed c
  eof (some econnreset) c = closed c
  eof (some other_errno) c = fail c

  start_wait : Bool → PipeCookie → PipeCookie × Ending
  start_wait wait_ok c = if wait_ok then (record c { waiting = true }, zero_status) else err1 c

  -- What follows the loop.
  after_loop : Answers → PipeCookie → LoopEnd p → PipeCookie × Ending
  unfolding start_wait
  after_loop a c (finished inpos out k') =
      let used : PipeCookie = record c { k = k'; outbuf = out; buffered = drop inpos c.buffered } in
      let sized : PipeCookie = record used { wlen = length out } in
      if length out == 0
      then start_wait a.wait_ok used
      else if a.write_ok
      then (record sized { writing = true }, zero_status)
      else err1 sized
  after_loop a c (refused k') = fail (record c { k = k' })
  after_loop a c aborted = (c, abort)
  after_loop a c unfinished = (c, abort)

  -- The wait is over when its callback is made.
  unfoldable pub callback_pipe_read : Answers → ℤ → PipeCookie → PipeCookie × Ending
  unfolding after_loop eof
  callback_pipe_read a status cookie =
      let c : PipeCookie = record cookie { waiting = false } in
      let at_eof = if c.decr && not (length c.buffered == 0) then fail c else eof a.shutdown c in
      let read =
        after_loop a c
          (process p (suc (length c.buffered)) c.decr c.full_buflen c.k c.buffered 0 []) in
      elim status [
        | pos n ↦ if n == 1 then at_eof else read
        | negsuc n ↦ if n == 0 then fail c else read
      ]

  unfoldable pub callback_pipe_write : Answers → ℤ → PipeCookie → PipeCookie × Ending
  unfolding start_wait
  callback_pipe_write a len cookie =
      let c : PipeCookie = record cookie { writing = false } in
      if lt_len len c.wlen then fail c else start_wait a.wait_ok c

  -- What is pending when the cookie is freed.
  unfoldable pub proto_pipe_cancel : PipeCookie → PipeCookie
  proto_pipe_cancel c = record c { waiting = false; writing = false; buffered = [] }
