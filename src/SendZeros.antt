-- ===== src/SendZeros.antt =====
-- perftests/send-zeros/main.c: the program that sends zeros to a server.
--
-- What the calls report is an argument; `PARSENUM` gives a number that is not 0. `World` counts the
-- buffers, address lists and descriptors that the process holds, and the bytes that have been sent.
use spiped.Base.{
  ℕ, zero, suc, ◌+◌, ◌-◌, ◌*◌, ◌≡◌, Bool, true, false, not, Option, none, some, ◌==◌, Bool-cases,
  inl, inr, if◌then◌else◌, arith,
}

pub record World : Type 0 where
  pub buffers : ℕ
  pub lists : ℕ
  pub fds : ℕ
  pub sent : ℕ

-- `addresses` is how many addresses there are, if any list; `writes n` is what `write` returns, if it
-- is not -1, when `n` more writes are to follow; `read` is 0 when the server has closed.
pub record Answers : Type 0 where
  pub buflen : Option ℕ
  pub count : Option ℕ
  pub alloc_ok : Bool
  pub addresses : Option ℕ
  pub connect_ok : Bool
  pub fcntl_ok : Bool
  pub begin_ok : Bool
  pub writes : ℕ → Option ℕ
  pub shutdown_ok : Bool
  pub read : Option ℕ
  pub end_ok : Bool
  pub close_ok : Bool

-- `write(…) != (ssize_t)buflen`, negated.
abbrev pub is_whole : Option ℕ → ℕ → Bool
is_whole none buflen = false
is_whole (some n) buflen = n == buflen

abbrev pub or_zero : Option ℕ → ℕ
or_zero none = 0
or_zero (some n) = n

-- `while (to_send > 0)`: whether every write is whole, and how many bytes are sent.
unfoldable pub send_data : (ℕ → Option ℕ) → ℕ → ℕ → Bool × ℕ
send_data writes buflen zero = (true, 0)
send_data writes buflen (suc to_send) =
    let rest = send_data writes buflen to_send in
    if is_whole (writes to_send) buflen
    then (rest.0, buflen + rest.1)
    else (false, or_zero (writes to_send))

abbrev pub err1 : World → ℕ × World
err1 w = (1, record w { buffers = w.buffers - 1 })

abbrev pub err2 : World → ℕ × World
err2 w = err1 (record w { lists = w.lists - 1 })

-- `close` is called whatever it reports.
abbrev pub err3 : World → ℕ × World
err3 w = err2 (record w { fds = w.fds - 1 })

-- What follows `sock_connect`; the world holds the buffer, the list and the socket.
unfoldable pub transfer : Answers → ℕ → ℕ → World → ℕ × World
unfolding send_data
transfer a buflen count w =
    let ran = send_data a.writes buflen count in
    let w' : World = record w { sent = w.sent + ran.1 } in
    let closed : World = record w' { fds = w.fds - 1 } in
    if not a.fcntl_ok
    then err3 w
    else if not a.begin_ok
    then err3 w
    else if not ran.0
    then err3 w'
    else if not a.shutdown_ok
    then err3 w'
    else if not (is_whole a.read 0)
    then err3 w'
    else if not a.end_ok
    then err3 w'
    else if not a.close_ok
    then err2 closed
    else (0, record closed { lists = w.lists - 1; buffers = w.buffers - 1 })

unfoldable pub connect : Answers → ℕ → ℕ → World → ℕ × World
unfolding transfer
connect a buflen count w =
    let listed : World = record w { lists = w.lists + 1 } in
    elim a.addresses [
      | none ↦ err1 w
      | some n ↦
          if n == 0
          then err2 listed
          else if not a.connect_ok
          then err2 listed
          else transfer a buflen count (record listed { fds = w.fds + 1 })
    ]

-- The exit status of `main`, and the world.
unfoldable pub send_zeros : Answers → World → ℕ × World
unfolding connect
send_zeros a w = elim a.buflen [
  | none ↦ (1, w)
  | some buflen ↦ elim a.count [
    | none ↦ (1, w)
    | some count ↦
        if not a.alloc_ok
        then (1, w)
        else connect a buflen count (record w { buffers = w.buffers + 1 })
  ]
]

send_data_lem :
    (writes : ℕ → Option ℕ) (buflen count : ℕ)
    → (send_data writes buflen count).0 ≡ true
    → (send_data writes buflen count).1 ≡ count * buflen
unfolding send_data
send_data_lem writes buflen zero e = omega arith
send_data_lem writes buflen (suc n) e = elim (Bool-cases (is_whole (writes n) buflen)) [
  | inl whole ↦
      let again : (send_data writes buflen n).0 ≡ true = ground arith in
      let rest = send_data_lem writes buflen n again in rw whole (omega (arith, rest))
  | inr cut ↦ absurd (ground arith)
]

-- What a way out leaves: nothing of the program's, and all of the bytes if the status is 0.
pub record Leaves (base : World) (total : ℕ) (ended : ℕ × World) : Type 0 where
  pub buffers : (ended.1).buffers ≡ base.buffers
  pub lists : (ended.1).lists ≡ base.lists
  pub fds : (ended.1).fds ≡ base.fds
  pub all_sent : ended.0 ≡ 0 → (ended.1).sent ≡ base.sent + total

transfer-Leaves :
    (a : Answers) (buflen count : ℕ) (w : World)
    → Leaves w (count * buflen) (
        transfer a buflen count
          (record w { buffers = w.buffers + 1; lists = w.lists + 1; fds = w.fds + 1 }))
unfolding transfer
transfer-Leaves a buflen count w = let all = send_data_lem a.writes buflen count in ground arith

connect-Leaves :
    (a : Answers) (buflen count : ℕ) (w : World)
    → Leaves w (count * buflen) (connect a buflen count (record w { buffers = w.buffers + 1 }))
unfolding connect
connect-Leaves a buflen count w =
    let sends = transfer-Leaves a buflen count w in
    elim a.addresses
      as (λ n. Leaves w (count * buflen) (
        connect (record a { addresses = n }) buflen count (record w { buffers = w.buffers + 1 }))) [
          | none ↦ ground arith
          | some n ↦
              elim (n == 0)
                as (λ b. Leaves w (count * buflen) (
                  if b
                  then err2 listed
                  else if not a.connect_ok
                  then err2 listed
                  else transfer a buflen count (record listed { fds = w.fds + 1 }))) [
                    | true ↦ ground arith
                    | false ↦
                        elim a.connect_ok
                          as (λ c. Leaves w (count * buflen) (
                            if not c
                            then err2 listed
                            else transfer a buflen count (record listed { fds = w.fds + 1 }))) [
                              | true ↦ sends
                              | false ↦ ground arith
                            ]
                  ]
        ]
  where
    listed : World
    listed = record w { buffers = w.buffers + 1; lists = w.lists + 1 }

-- Whatever the calls report, the program leaves no buffer, list or descriptor behind; when it exits
-- with 0, it has sent as many times the number of bytes as it was asked to.
pub send_zeros-Leaves :
    (a : Answers) (w : World) → Leaves w (or_zero a.count * or_zero a.buflen) (send_zeros a w)
unfolding send_zeros
send_zeros-Leaves a w =
    elim a.buflen
      as (λ l. Leaves w (or_zero a.count * or_zero l) (send_zeros (record a { buflen = l }) w)) [
        | none ↦ ground arith
        | some buflen ↦
            elim a.count
              as (λ m.
                Leaves w (or_zero m * buflen)
                  (send_zeros (record a { buflen = some buflen; count = m }) w)) [
                    | none ↦ ground arith
                    | some count ↦
                        elim a.alloc_ok
                          as (λ x. Leaves w (count * buflen) (
                            if not x
                            then (1, w)
                            else connect (record a { buflen = some buflen; count = some count })
                                buflen count (record w { buffers = w.buffers + 1 }))) [
                                  | true ↦
                                      connect-Leaves
                                        (record a { buflen = some buflen; count = some count })
                                        buflen count w
                                  | false ↦ ground arith
                                ]
                  ]
      ]
