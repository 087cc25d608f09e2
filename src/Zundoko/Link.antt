-- ===== src/Zundoko/Link.antt =====
-- server.cc and client.cc as they are, joined by a network that loses nothing and keeps the order: two
-- queues at the server's socket. A datagram that the client sends is put into the first, and the
-- server's loop goes round once; what the client receives comes from the second.
use libpgen.Base.{
  ℕ, ◌%◌, ◌≤◌, ◌<◌, ◌≡◌, refl, ap, ◌∙◌, List, [], ◌∷◌, ◌++◌, Option, some, none, arith, length,
  take, All,
}
use libpgen.Base.Run.{ok, throw, fault}
use libpgen.Base.Text.{Text}
use libpgen.Zundoko.Socket.{Calls, SockaddrIn}
use libpgen.Zundoko.Client.{play}
use libpgen.Zundoko.Client as Client
use libpgen.Zundoko.Server.{ZdState, Server, client_hanle}
use libpgen.Zundoko.Server as Server
use libpgen.Zundoko.Streak.{streak, answer, index}
use libpgen.Zundoko.Game.{Datagrams, IsNetwork, server_at, client_hanle-answer}
use libpgen.Zundoko.Exchange.{client_at}
use libpgen.Zundoko.Session.{Choice, IsServed, IsShort, input_for, said, play-said}

pub record Queues : Type 0 where
  pub inbox : Datagrams
  pub outbox : Datagrams

abbrev next : ℕ → Datagrams → Option (List ℕ × SockaddrIn)
next n [] = none
next n (p ∷ ps) = some (take n p.0, p.1)

abbrev others : Datagrams → Datagrams
others [] = []
others (p ∷ ps) = ps

-- The calls of the server. Its socket has the descriptor 3.
abbrev pub queue_calls : Calls Queues
queue_calls = record {
  socket = λ domain type protocol q. (some 3, q);
  close = λ fd q. q;
  bind = λ fd addr q. (some tt, q);
  get_address = λ fd name q. (some 16777343, q);
  sendto = λ fd d to q. (some (length d), record q { outbox = q.outbox ++ (d, to) ∷ [] });
  recvfrom = λ fd n q. (next n q.inbox, record q { inbox = others q.inbox });
}

unfoldable pub queues : IsNetwork queue_calls 3
queues = record {
  inbox = λ q. q.inbox;
  outbox = λ q. q.outbox;
  receives = λ q n d from rest e. (
    record q { inbox = rest },
    ap (λ (t : Datagrams). (next n t, record q { inbox = others t })) e,
    refl,
    refl,
  );
  sends = λ q d to. (record q { outbox = q.outbox ++ (d, to) ∷ [] }, refl, refl, refl);
}

-- The server with its queues.
abbrev pub at : Datagrams → Datagrams → ZdState → Text → Server Queues
at inbox outbox state console =
    server_at queue_calls 3 (record { inbox = inbox; outbox = outbox }) state console

abbrev pub here : SockaddrIn
here = record { sin_port = 8080; sin_addr = 16777343 }

put : List ℕ → Server Queues → Server Queues
put d s = record s {
  sock = record s.sock {
    kernel = record s.sock.kernel { inbox = s.sock.kernel.inbox ++ (d, here) ∷ [] };
  };
}

taken : Server Queues → Server Queues
taken s = record s {
  sock = record s.sock { kernel = record s.sock.kernel { outbox = others s.sock.kernel.outbox } };
}

-- The calls of the client: its kernel is the server.
sent : List ℕ → Server Queues → Option ℕ × Server Queues
unfolding put
sent d s = elim (client_hanle queue_calls (put d s)) [
  | ok _ s' ↦ (some (length d), s')
  | throw _ s' ↦ (none, s')
  | fault ↦ (none, s)
]

unfoldable pub link_calls : Calls (Server Queues)
unfolding sent taken
link_calls = record {
  socket = λ domain type protocol s. (some 3, s);
  close = λ fd s. s;
  bind = λ fd addr s. (some tt, s);
  get_address = λ fd name s. (some 16777343, s);
  sendto = λ fd d to s. sent d s;
  recvfrom = λ fd n s. (next n s.sock.kernel.outbox, taken s);
}

small : (d : List ℕ) → length d ≤ Client.buffer_size → length d < Server.buffer_size
unfolding Client.buffer_size Server.buffer_size
small d h = omega (arith, h)

-- Between two rounds both queues are empty, and the state has counted the ZUN by fives.
abbrev Idle : Server Queues → List (List ℕ) → Type 0
Idle s past =
    (state : ZdState) × (console : Text) × (s ≡ at [] [] state console)
    × (index state ≡ streak past % 5)

link_answers :
    (s : Server Queues) (n : ℕ) (past : List (List ℕ)) (d : List ℕ) (to : SockaddrIn) (fd : ℕ)
    → Idle s past
    → length d ≤ Client.buffer_size
    → (s' s'' : Server Queues) × (from : SockaddrIn) × (link_calls.sendto (some fd) d to s
        ≡ (some (length d), s'))
      × (link_calls.recvfrom (some fd) n s' ≡ (some (take n (answer past d), from), s''))
      × Idle s'' (d ∷ past)
unfolding link_calls sent put taken queues
link_answers s n past d to fd (state, console, e, counted) h =
    let ahead : Queues = record { inbox = (d, here) ∷ []; outbox = [] } in
    let (q, state', text, round, out, empty, counted') =
      client_hanle-answer queue_calls 3 queues past d here [] ahead state console (small d h) refl
        counted in
    let same : q ≡ record { inbox = []; outbox = (answer past d, here) ∷ [] } =
      λ i. record { inbox = empty i; outbox = out i } in
    let served : sent d (at [] [] state console)
        ≡ (some (length d), at [] ((answer past d, here) ∷ []) state' text) =
      rw (sent, round)
        (ap (λ (t : Queues). (some (length d), server_at queue_calls 3 t state' text)) same) in
    (
      at [] ((answer past d, here) ∷ []) state' text,
      at [] [] state' text,
      here,
      ap (sent d) e ∙ served,
      refl,
      (state', text, refl, counted'),
    )

link : (fd : ℕ) → IsServed link_calls fd
link fd = record { Holds = Idle; answers = λ s n past d to e h. link_answers s n past d to fd e h }

-- A user who asks the client for the rounds `c` and `cs`, with messages of at most 995 characters,
-- while the server has just been started at the other end, gets through as many rounds, and the last
-- that the client prints is that KIYOSHI came, if the last choice is a DOKO and the number of ZUN right
-- before it leaves 4 when divided by 5, and "Miss" in all other cases.
pub play_linked :
    (c : Choice) (cs : List Choice) (randoms : List ℕ) (fd : ℕ) (to : SockaddrIn) (console : Text)
    → All IsShort (c ∷ cs)
    → length randoms ≡ length (c ∷ cs)
    → let started = at [] [] ZdState.none [] in
      (s : Server Queues) × (from : SockaddrIn) × (text : Text) × (play link_calls randoms
          (client_at link_calls fd started to (input_for (c ∷ cs)) console)
        ≡ ok tt (client_at link_calls fd s from [] (text ++ said [] c cs)))
unfolding link index streak
play_linked c cs randoms fd to console fit l =
    play-said link_calls fd (link fd) [] cs c randoms (at [] [] ZdState.none []) to console tt fit
      (ZdState.none, [], refl, refl) l
