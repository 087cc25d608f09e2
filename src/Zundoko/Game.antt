-- ===== src/Zundoko/Game.antt =====
-- What server.cc does with the datagrams that a network brings it, one after the other.
use libpgen.Base.{
  String, ℕ, ◌%◌, ◌≤◌, ◌<◌, ◌≡◌, inl, inr, refl, sym, ap, ap₂, ◌∙◌, List, [], ◌∷◌, ◌++◌,
  append_assoc, append-nil, Option, some, arith, length, take, drop, All, ◌==◌, Bool-cases,
  take-length,
}
use libpgen.Base.Run.{Exec, ok, pure, >>=-ok, member-ok}
use libpgen.Base.Text.{Text, codes}
use libpgen.Zundoko.{type_of, message_length, c_string}
use libpgen.Zundoko.Socket.{Calls, Sock, SockaddrIn, or_exit, sendto, recvfrom}
use libpgen.Zundoko.Server.{
  ZdState, Server, buffer_size, turn, received_text, state_text, on_sock, print_message, take_turn,
  client_hanle, serve,
}
use libpgen.Zundoko.Streak.{
  streak, answer, index, filled, take-turn, index-turn_lem, c_string-filled,
}

abbrev pub Datagrams : Type 0
Datagrams = List (List ℕ × SockaddrIn)

-- A kernel that hands over the datagrams of its inbox in order, cut to the buffer's length, and that
-- puts what is sent at the end of its outbox.
pub record IsNetwork {Kernel : Type 0} (calls : Calls Kernel) (fd : ℕ) : Type 0 where
  pub inbox : Kernel → Datagrams
  pub outbox : Kernel → Datagrams
  pub receives :
      (k : Kernel) (n : ℕ) (d : List ℕ) (from : SockaddrIn) (rest : Datagrams)
      → inbox k ≡ (d, from) ∷ rest
      → (k' : Kernel) × (calls.recvfrom (some fd) n k ≡ (some (take n d, from), k'))
        × (inbox k' ≡ rest)
        × (outbox k' ≡ outbox k)
  pub sends :
      (k : Kernel) (d : List ℕ) (to : SockaddrIn)
      → (k' : Kernel) × (calls.sendto (some fd) d to k ≡ (some (length d), k'))
        × (inbox k' ≡ inbox k)
        × (outbox k' ≡ outbox k ++ (d, to) ∷ [])

-- The answers to the datagrams `ds` after the datagrams `past`, each to its sender.
unfoldable pub answers : List (List ℕ) → Datagrams → Datagrams
unfolding answer
answers past [] = []
answers past ((d, from) ∷ ds) = (answer past d, from) ∷ answers (d ∷ past) ds

or_exit-ok :
    {Kernel A : Type 0} (text : String) (call : Option ℕ → Kernel → Option A × Kernel)
    (s : Sock Kernel) {a : A} {k : Kernel}
    → call s.fd s.kernel ≡ (some a, k)
    → or_exit text call s ≡ ok a (record s { kernel = k })
or_exit-ok text call s {a = a} e = rw (or_exit, e) (ap (λ r. ok a (record s { kernel = r.1 })) e)

-- What is printed of the message is all in the buffer, where that ends in a zero.
print_message-ok :
    {Kernel : Type 0} (s : Server Kernel) (buffer : List ℕ) (t : Text)
    → c_string (drop 4 buffer) ≡ some t
    → (text : Text) × (print_message buffer s ≡ ok tt (record s { console = text }))
unfolding print_message
print_message-ok s buffer t e = elim (Bool-cases (message_length buffer == 0)) [
  | inl p ↦ (s.console, rw p refl)
  | inr p ↦ (s.console ++ (codes "msg=\"" ++ t ++ codes "\" "), rw (p, e) refl)
]

module _ {Kernel : Type 0} (calls : Calls Kernel) (fd : ℕ) where
  abbrev pub socket_at : Kernel → Sock Kernel
  socket_at k = record { fd = some fd; kernel = k }

  -- A server whose socket has the descriptor `fd`.
  abbrev pub server_at : Kernel → ZdState → Text → Server Kernel
  server_at k state console = record { sock = socket_at k; state = state; console = console }

  pub on_sock-ok :
      {A : Type 0} (m : Exec (Sock Kernel) A) (k k' : Kernel) (state : ZdState) (console : Text)
      {a : A}
      → m (socket_at k) ≡ ok a (socket_at k')
      → on_sock m (server_at k state console) ≡ ok a (server_at k' state console)
  on_sock-ok m k k' state console e =
      member-ok (λ s. s.sock) (λ t s. record s { sock = t }) m (server_at k state console) e

  pub recvfrom-ok :
      (n : ℕ) (d : List ℕ) (from : SockaddrIn) (k k' : Kernel)
      → length d ≤ n
      → calls.recvfrom (some fd) n k ≡ (some (take n d, from), k')
      → recvfrom calls n (socket_at k) ≡ ok (d, from) (socket_at k')
  recvfrom-ok n d from k k' h got =
      >>=-ok (or_exit "recvfrom" (λ fd. calls.recvfrom fd n)) (λ r. pure (take n r.0, r.1))
        (socket_at k) (or_exit-ok "recvfrom" (λ fd. calls.recvfrom fd n) (socket_at k) got)
      ∙ ap (λ t. ok (t, from) (socket_at k')) (ap (take n) (take-length d n h) ∙ take-length d n h)

  pub sendto-ok :
      (d : List ℕ) (to : SockaddrIn) (k k' : Kernel)
      → calls.sendto (some fd) d to k ≡ (some (length d), k')
      → sendto calls d to (socket_at k) ≡ ok (length d) (socket_at k')
  sendto-ok d to k k' sent = or_exit-ok "sendto" (λ fd. calls.sendto fd d to) (socket_at k) sent

  pub four_lt : 4 < buffer_size
  unfolding buffer_size
  four_lt = omega arith

  -- One round, by what the two calls return.
  client_hanle_lem :
      (d : List ℕ) (from : SockaddrIn) (k k' k'' : Kernel) (state : ZdState) (console : Text)
      → length d < buffer_size
      → calls.recvfrom (some fd) buffer_size k ≡ (some (take buffer_size d, from), k')
      → let buffer = filled buffer_size d in
        let left = turn state (type_of buffer) buffer in
        let reply = take (length d) left.1 in
        calls.sendto (some fd) reply from k' ≡ (some (length reply), k'')
        → (text : Text) × (client_hanle calls (server_at k state console)
            ≡ ok tt (server_at k'' left.0 text))
  unfolding client_hanle take_turn
  client_hanle_lem d from k k' k'' state console h got sent =
      let buffer = filled buffer_size d in
      let received = recvfrom-ok buffer_size d from k k' (omega (arith, h)) got in
      let (t, zero_found) = c_string-filled buffer_size 4 d h four_lt in
      let s : Server Kernel = server_at k' state (console ++ received_text buffer) in
      let (text, printed) = print_message-ok s buffer t zero_found in
      let left = turn state (type_of buffer) buffer in
      let text' = text ++ left.2 ++ state_text left.0 in
      let reply = take (length d) left.1 in
      let answered = sendto-ok reply from k' k'' sent in
      (
        text',
        >>=-ok (on_sock (recvfrom calls buffer_size)) _ (server_at k state console)
              (on_sock-ok (recvfrom calls buffer_size) k k' state console received)
            ∙ >>=-ok (print_message buffer) _ s printed
            ∙ >>=-ok (on_sock (sendto calls reply from)) _ (server_at k' left.0 text')
                (on_sock-ok (sendto calls reply from) k' k'' left.0 text' answered),
      )

  module _ (net : IsNetwork calls fd) where
    -- One round on a network, after the datagrams `past`.
    pub client_hanle-answer :
        (past : List (List ℕ)) (d : List ℕ) (from : SockaddrIn) (ds : Datagrams) (k : Kernel)
        (state : ZdState) (console : Text)
        → length d < buffer_size
        → net.inbox k ≡ (d, from) ∷ ds
        → index state ≡ streak past % 5
        → (k' : Kernel) × (state' : ZdState) × (text : Text) × (client_hanle calls
              (server_at k state console)
            ≡ ok tt (server_at k' state' text))
          × (net.outbox k' ≡ net.outbox k ++ (answer past d, from) ∷ [])
          × (net.inbox k' ≡ ds)
          × (index state' ≡ streak (d ∷ past) % 5)
    client_hanle-answer past d from ds k state console h waits e =
        let buffer = filled buffer_size d in
        let left = turn state (type_of buffer) buffer in
        let reply = take (length d) left.1 in
        let (k', got, rest, kept) = net.receives k buffer_size d from ds waits in
        let (k'', sent, rest', out) = net.sends k' reply from in
        let (text, round) = client_hanle_lem d from k k' k'' state console h got sent in
        let le : length d ≤ buffer_size = omega (arith, h) in
        (
          k'',
          left.0,
          text,
          round,
          out
              ∙ ap₂ (λ (xs : Datagrams) (m : List ℕ). xs ++ (m, from) ∷ []) kept
                  (take-turn buffer_size state past d le e),
          rest' ∙ rest,
          index-turn_lem buffer_size state past d le e,
        )

    -- After datagrams `past`, of which the newest stands first and whose last ZUN the state has counted
    -- by fives, the server takes the datagrams `ds` that wait, each shorter than its buffer, in as many
    -- rounds, and sends for each the answer that the ZUN before it ask for.
    pub serve-answers :
        (ds : Datagrams) (past : List (List ℕ)) (k : Kernel) (state : ZdState) (console : Text)
        → net.inbox k ≡ ds
        → All (λ p. length p.0 < buffer_size) ds
        → index state ≡ streak past % 5
        → (k' : Kernel) × (state' : ZdState) × (text : Text) × (serve calls
              (length ds)
              (server_at k state console)
            ≡ ok tt (server_at k' state' text))
          × (net.outbox k' ≡ net.outbox k ++ answers past ds)
          × (net.inbox k' ≡ [])
    unfolding serve answers
    serve-answers [] past k state console waits fit e =
        (k, state, console, refl, sym (append-nil _), waits)
    serve-answers ((d, from) ∷ ds) past k state console waits (h, fit) e =
        let (k', state', text, round, out, rest, e') =
          client_hanle-answer past d from ds k state console h waits e in
        let (k'', state'', text', more, out', none_left) =
          serve-answers ds (d ∷ past) k' state' text rest fit e' in
        (
          k'',
          state'',
          text',
          >>=-ok (client_hanle calls) _ (server_at k state console) round ∙ more,
          out'
              ∙ ap (λ (xs : Datagrams). xs ++ answers (d ∷ past) ds) out
              ∙ append_assoc (net.outbox k) ((answer past d, from) ∷ []) (answers (d ∷ past) ds),
          none_left,
        )
