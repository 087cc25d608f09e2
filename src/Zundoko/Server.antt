-- ===== src/Zundoko/Server.antt =====
-- example/zundoko/server.cc: the state machine that waits for four ZUN and a DOKO, and the program
-- around it. What the program prints is kept in `console`.
use libpgen.Base.{
  ℕ, zero, suc, List, [], ◌∷◌, ◌++◌, Option, some, length, take, drop, replicate, ◌==◌,
  if◌then◌else◌,
}
use libpgen.Base.Int.{ℤ, negsuc}
use libpgen.Base.Run.{Exec, ok, pure, undefined, modify, member, ◌>>=◌, ◌>>◌}
use libpgen.Base.Splice.{splice}
use libpgen.Base.Text.{Text, codes, decimal32, atoi, int_text}
use libpgen.Zundoko.{zun, doko, kiyoshi, type_of, message_length, set_type, c_string}
use libpgen.Zundoko.Socket.{Calls, Sock, sockaddr, socket, bind, ioctl, sendto, recvfrom}

pub data ZdState : Type 0 where
  none z zz zzz zzzz : ZdState

pub record Server (Kernel : Type 0) : Type 0 where
  pub sock : Sock Kernel
  pub state : ZdState
  pub console : Text

-- `char buffer[10000]`
unfoldable pub buffer_size : ℕ
buffer_size = 10000

-- The `switch` on the state: the next state, the buffer with the type set where the server answers
-- KIYOSHI, and what is printed then.
unfoldable pub turn : ZdState → ℕ → List ℕ → ZdState × List ℕ × Text
turn none type buffer = (if type == zun then z else none, buffer, [])
turn z type buffer = (if type == zun then zz else none, buffer, [])
turn zz type buffer = (if type == zun then zzz else none, buffer, [])
turn zzz type buffer = (if type == zun then zzzz else none, buffer, [])
turn zzzz type buffer =
    if type == doko then (none, set_type kiyoshi buffer, codes "Succsess ") else (none, buffer, [])

unfoldable pub state_text : ZdState → Text
state_text none = codes "state=none\n"
state_text z = codes "state=z\n"
state_text zz = codes "state=zz\n"
state_text zzz = codes "state=zzz\n"
state_text zzzz = codes "state=zzzz\n"

unfoldable pub type_text : ℕ → Text
type_text type =
    if type == zun then codes "ZUN" else if type == doko then codes "DOKO" else codes "UNKNOWN"

abbrev pub received_text : List ℕ → Text
received_text buffer =
    codes "Recv type="
    ++ type_text (type_of buffer)
    ++ codes " msglen="
    ++ decimal32 (message_length buffer)
    ++ codes " "

module _ {Kernel : Type 0} where
  abbrev pub on_sock : {A : Type 0} → Exec (Sock Kernel) A → Exec (Server Kernel) A
  on_sock = member (λ s. s.sock) (λ t s. record s { sock = t })

  abbrev pub print : Text → Exec (Server Kernel) (Unit {0})
  print text = modify (λ s. record s { console = s.console ++ text })

  -- `if (ntohs(zd->message_length) != 0) printf("msg=\"%s\" ", buffer+sizeof(zundoko));`
  unfoldable pub print_message : List ℕ → Exec (Server Kernel) (Unit {0})
  print_message buffer =
      if message_length buffer == 0 then pure tt else elim (c_string (drop 4 buffer)) [
        | Option.none ↦ undefined
        | some msg ↦ print (codes "msg=\"" ++ msg ++ codes "\" ")
      ]

  -- Both `switch` statements: the answer is the buffer that they leave.
  unfoldable pub take_turn : List ℕ → Exec (Server Kernel) (List ℕ)
  unfolding turn
  take_turn buffer s =
      let t = turn s.state (type_of buffer) buffer in
      ok t.1 (record s { state = t.0; console = s.console ++ t.2 ++ state_text t.0 })

module _ {Kernel : Type 0} (calls : Calls Kernel) where
  unfoldable pub client_hanle : Exec (Server Kernel) (Unit {0})
  unfolding print_message take_turn
  client_hanle = do
    received ← on_sock (recvfrom calls buffer_size)
    let buffer = splice 0 received.0 (replicate buffer_size 0)
    print (received_text buffer)
    print_message buffer
    buffer ← take_turn buffer
    on_sock (sendto calls (take (length received.0) buffer) received.1)
    pure tt

  -- `while (1) client_hanle(sock);`, for a number of rounds.
  unfoldable pub serve : ℕ → Exec (Server Kernel) (Unit {0})
  unfolding client_hanle
  serve zero = pure tt
  serve (suc n) = client_hanle >> serve n

  -- The result is what `main` returns, or none where it is still in its loop after `n` rounds. `info`
  -- is what `inet_ntoa` gives of the address.
  unfoldable pub main : (ℕ → Text) → ℕ → List Text → Exec (Server Kernel) (Option ℤ)
  unfolding serve
  main info n (program ∷ device ∷ port ∷ more) = do
    on_sock (socket calls 2 2 0)
    address ← on_sock (ioctl calls (take 15 device))
    on_sock (bind calls (sockaddr (atoi port) address))
    modify (λ s. record s { state = none })
    print (
        codes "server info "
        ++ info address
        ++ codes ":"
        ++ int_text (atoi port)
        ++ codes "/udp \n")
    serve n
    pure Option.none
  main info n (program ∷ more) = do
    print (codes "Usage: " ++ program ++ codes " DEVIDE PORT\n")
    pure (some (negsuc 0))
  main info n [] = undefined
