-- ===== src/Zundoko/Client.antt =====
-- example/zundoko/client.cc: a round of the client, which sends what the user chose and says whether
-- KIYOSHI came back, and the program around it.
use libpgen.Base.{
  ℕ, ◌+◌, ◌%◌, List, [], ◌∷◌, ◌++◌, Bool, true, false, Option, some, length, take, replicate, ltb,
  ◌==◌, ◌&&◌, if◌then◌else◌,
}
use libpgen.Base.Int.{ℤ, negsuc}
use libpgen.Base.Run.{Exec, ok, pure, undefined, modify, member, get, ◌>>=◌, ◌>>◌}
use libpgen.Base.Splice.{splice}
use libpgen.Base.Text.{Text, codes, decimal32, atoi, int_text}
use libpgen.Layout.{u16_view}
use libpgen.Zundoko.{zun, doko, kiyoshi, type_of, message_length, set_type, set_message_length}
use libpgen.Zundoko.Socket.{Calls, Sock, SockaddrIn, sockaddr, socket, sendto, recvfrom}

-- `input` are the words that `scanf("%s", ..)` will read, and `addr` is the variable of `main`.
pub record Client (Kernel : Type 0) : Type 0 where
  pub sock : Sock Kernel
  pub addr : SockaddrIn
  pub input : List Text
  pub console : Text

-- `uint8_t buffer[1000]`
unfoldable pub buffer_size : ℕ
buffer_size = 1000

-- `strcmp(a, b) == 0`
abbrev pub same : Text → Text → Bool
same [] [] = true
same [] (d ∷ ds) = false
same (c ∷ cs) [] = false
same (c ∷ cs) (d ∷ ds) = c == d && same cs ds

-- The buffer of 1000 zeros with a message behind the header, its type and its length.
unfoldable pub message : ℕ → Text → List ℕ
message type msg =
    set_message_length (length msg) (set_type type (splice 4 msg (replicate buffer_size 0)))

-- What the round says of the answer.
unfoldable pub verdict : List ℕ → Text
verdict buffer = if type_of buffer == kiyoshi then codes "Recv KIYOSHI !!! \n" else codes "Miss \n"

-- What is printed of the buffer that was sent.
unfoldable pub sent_text : List ℕ → Text → Text
sent_text buffer msg =
    codes "--------------sent--------------\n"
    ++ codes "ZunDoko Type: "
    ++ (if u16_view buffer == zun then codes "ZUN" else codes "DOKO")
    ++ codes " \nMessage Len : "
    ++ decimal32 (message_length buffer)
    ++ codes " \n"
    ++ (if message_length buffer == 0 then [] else codes "Message    : " ++ msg ++ codes " \n")
    ++ codes "--------------------------------\n"

module _ {Kernel : Type 0} where
  abbrev pub on_sock : {A : Type 0} → Exec (Sock Kernel) A → Exec (Client Kernel) A
  on_sock = member (λ s. s.sock) (λ t s. record s { sock = t })

  abbrev pub print : Text → Exec (Client Kernel) (Unit {0})
  print text = modify (λ s. record s { console = s.console ++ text })

  -- `scanf("%s", p)` into `capacity` bytes: a longer word is written past them. Where no word is left
  -- the bytes, which `inputstr` has not set, are read as they are.
  unfoldable pub scan_word : ℕ → Exec (Client Kernel) Text
  scan_word capacity s = elim s.input [
    | [] ↦ undefined s
    | word ∷ more ↦
        if ltb (length word) capacity then ok word (record s { input = more }) else undefined s
  ]

  unfoldable pub scan_message : Exec (Client Kernel) Text
  unfolding scan_word
  scan_message = do print (codes "input msg: "); scan_word 996

  -- The type and the message that the user's choice stands for. `random` is what `rand()` returns.
  unfoldable pub choose : ℕ → Text → Exec (Client Kernel) (ℕ × Text)
  unfolding scan_message
  choose random inputstr =
      if same inputstr (codes "z")
      then pure (zun, [])
      else if same inputstr (codes "d")
      then pure (doko, [])
      else if same inputstr (codes "zm")
      then (scan_message >>= λ msg. pure (zun, msg))
      else if same inputstr (codes "dm")
      then (scan_message >>= λ msg. pure (doko, msg))
      else pure (if random % 2 == 0 then zun else doko, [])

module _ {Kernel : Type 0} (calls : Calls Kernel) where
  -- The answer's sender takes the server's place in `addr`.
  unfoldable pub send_zundoko : ℕ → Exec (Client Kernel) (Unit {0})
  unfolding scan_word choose
  send_zundoko random = do
    print (codes "input('z':send ZUN, 'd':send DOKO, ELSE:sned random): ")
    inputstr ← scan_word 1000
    chosen ← choose random inputstr
    let buffer = message chosen.0 chosen.1
    s ← get
    on_sock (sendto calls (take (4 + message_length buffer) buffer) s.addr)
    print (sent_text buffer chosen.1)
    received ← on_sock (recvfrom calls buffer_size)
    modify (λ s. record s { addr = received.1 })
    print (verdict (splice 0 received.0 (replicate buffer_size 0)))

  -- `while (1) send_zundoko(sock, &addr);`, with what `rand` returns in each of the rounds.
  unfoldable pub play : List ℕ → Exec (Client Kernel) (Unit {0})
  unfolding send_zundoko
  play [] = pure tt
  play (random ∷ randoms) = send_zundoko random >> play randoms

  -- As for the server. `inet_addr` and `info`, which is `inet_ntoa`, are the platform's.
  unfoldable pub main :
      (Text → ℕ) → (ℕ → Text) → List ℕ → List Text → Exec (Client Kernel) (Option ℤ)
  unfolding play
  main inet_addr info randoms (program ∷ server ∷ port ∷ more) = do
    on_sock (socket calls 2 2 0)
    let address = inet_addr server
    modify (λ s. record s { addr = sockaddr (atoi port) address })
    print (
        codes "target server info "
        ++ info address
        ++ codes ":"
        ++ int_text (atoi port)
        ++ codes "/udp \n")
    play randoms
    pure Option.none
  main inet_addr info randoms (program ∷ more) = do
    print (codes "Usage: " ++ program ++ codes " SERVER PORT \n")
    pure (some (negsuc 0))
  main inet_addr info randoms [] = undefined
