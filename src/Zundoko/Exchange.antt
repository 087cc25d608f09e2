-- ===== src/Zundoko/Exchange.antt =====
-- A round of client.cc, and what it makes of the answers of server.cc.
use libpgen.Base.{
  ℕ, ◌+◌, ◌-◌, ◌%◌, ◌≤◌, ◌<◌, ◌≡◌, refl, sym, ap, ap₂, subst, ◌∙◌, List, [], ◌∷◌, ◌++◌, Bool, true,
  false, Option, some, none, arith, length, take, drop, replicate, ltb, lt→ltb, ◌==◌, ◌&&◌,
  if◌then◌else◌, Bool-cases, length-replicate, length-take_le, length-drop, inl, inr,
}
use libpgen.Base.Bytes.{htons, ntohs, ntohs-htons, htons-lt}
use libpgen.Base.Run.{Exec, ok, >>=-ok, member-ok}
use libpgen.Base.Splice.{splice, splice-after, splice-splice, take-splice_self}
use libpgen.Base.Text.{Text, codes}
use libpgen.Layout.{u16_put, u16_view-put}
use libpgen.Zundoko.{zun, doko, kiyoshi, type_of, message_length, set_type, set_message_length}
use libpgen.Zundoko.Socket.{Calls, Sock, SockaddrIn, sendto, recvfrom}
use libpgen.Zundoko.Client.{
  Client, buffer_size, message, verdict, sent_text, scan_word, scan_message, choose, on_sock,
  send_zundoko,
}
use libpgen.Zundoko.Streak.{streak, answer, filled, filled_lem, type_of-filled}
use libpgen.Zundoko.Game.{socket_at, recvfrom-ok, sendto-ok}

-- A message as it goes over the network.
abbrev pub datagram : ℕ → Text → List ℕ
datagram type msg = u16_put (htons type) ++ u16_put (htons (length msg)) ++ msg

message_lem : (type : ℕ) (msg : Text) → message type msg ≡ filled buffer_size (datagram type msg)
unfolding message set_type set_message_length
message_lem type msg =
    let zs : List ℕ = replicate buffer_size 0 in
    splice-after 0 (u16_put (htons type)) (u16_put (htons (length msg))) (splice 4 msg zs)
    ∙ splice-splice 0 (u16_put (htons type) ++ u16_put (htons (length msg))) msg zs

-- 4 + 995 characters fit the buffer.
pub datagram_fits :
    (type : ℕ) (msg : Text) → length msg < 996 → length (datagram type msg) ≤ buffer_size
unfolding buffer_size
datagram_fits type msg h = omega (arith, h)

message_length-message :
    (type : ℕ) (msg : Text) → length msg < 996 → message_length (message type msg) ≡ length msg
unfolding message_length
message_length-message type msg h =
    let zeros : List ℕ = replicate (buffer_size - length (datagram type msg)) 0 in
    let n = htons (length msg) in
    ap message_length (
      message_lem type msg
      ∙ filled_lem buffer_size (datagram type msg) (omega (arith, datagram_fits type msg h)))
    ∙ ap ntohs (u16_view-put n (msg ++ zeros) (htons-lt (length msg)))
    ∙ ntohs-htons (length msg) (omega (arith, h))

-- What is sent of the buffer.
sent-message :
    (type : ℕ) (msg : Text)
    → length msg < 996
    → take (4 + message_length (message type msg)) (message type msg) ≡ datagram type msg
sent-message type msg h =
    ap₂ (λ (n : ℕ) (b : List ℕ). take (4 + n) b) (message_length-message type msg h)
      (message_lem type msg)
    ∙ take-splice_self (datagram type msg) (replicate buffer_size 0) (4 + length msg) (omega arith)
        (rw (length-replicate {A = ℕ} buffer_size 0) (omega (arith, datagram_fits type msg h)))

-- What server.cc reads of a message is what client.cc put into it: the type, the number of its
-- characters and the characters, for a type and a number below 65536.
pub type_of-datagram :
    (type : ℕ) (msg : Text)
    → type < 65536
    → length msg < 65536
    → (type_of (datagram type msg) ≡ type)
      × (message_length (datagram type msg) ≡ length msg)
      × (drop 4 (datagram type msg) ≡ msg)
unfolding type_of message_length
type_of-datagram type msg h g =
    let second = u16_put (htons (length msg)) ++ msg in
    (
      ap ntohs (u16_view-put (htons type) second (htons-lt type)) ∙ ntohs-htons type h,
      ap ntohs (u16_view-put (htons (length msg)) msg (htons-lt (length msg)))
          ∙ ntohs-htons (length msg) g,
      refl,
    )

-- The word that a user types for a ZUN or, where the first argument is true, a DOKO, with a message or
-- without one.
abbrev pub word_for : Bool → Option Text → Text
word_for false none = codes "z"
word_for true none = codes "d"
word_for false (some msg) = codes "zm"
word_for true (some msg) = codes "dm"

-- That word, and the message as the next one.
abbrev pub words_for : Bool → Option Text → List Text → List Text
words_for b none more = word_for b none ∷ more
words_for b (some msg) more = word_for b (some msg) ∷ msg ∷ more

abbrev pub type_for : Bool → ℕ
type_for b = if b then doko else zun

abbrev pub text_of : Option Text → Text
text_of none = []
text_of (some msg) = msg

abbrev rest_for : Option Text → List Text → List Text
rest_for none more = more
rest_for (some msg) more = msg ∷ more

words_for_lem :
    (b : Bool) (m : Option Text) (more : List Text)
    → words_for b m more ≡ word_for b m ∷ rest_for m more
words_for_lem b none more = refl
words_for_lem b (some msg) more = refl

short : (b : Bool) (m : Option Text) → ltb (length (word_for b m)) 1000 ≡ true
short true none = refl
short true (some msg) = refl
short false none = refl
short false (some msg) = refl

module _ {Kernel : Type 0} (calls : Calls Kernel) (fd : ℕ) where
  -- A client whose socket has the descriptor `fd`.
  abbrev pub client_at : Kernel → SockaddrIn → List Text → Text → Client Kernel
  client_at k addr input console = record {
    sock = socket_at calls fd k;
    addr = addr;
    input = input;
    console = console;
  }

  scan_word-ok :
      (n : ℕ) (k : Kernel) (addr : SockaddrIn) (word : Text) (more : List Text) (console : Text)
      → ltb (length word) n ≡ true
      → scan_word n (client_at k addr (word ∷ more) console)
        ≡ ok word (client_at k addr more console)
  unfolding scan_word
  scan_word-ok n k addr word more console h = rw h refl

  scan_message-ok :
      (k : Kernel) (addr : SockaddrIn) (msg : Text) (more : List Text) (console : Text)
      → length msg < 996
      → (text : Text) × (scan_message (client_at k addr (msg ∷ more) console)
          ≡ ok msg (client_at k addr more text))
  unfolding scan_message
  scan_message-ok k addr msg more console h =
      let text = console ++ codes "input msg: " in
      (text, scan_word-ok 996 k addr msg more text (lt→ltb (length msg) 996 h))

  choose-ok :
      (b : Bool) (m : Option Text) (random : ℕ) (k : Kernel) (addr : SockaddrIn) (more : List Text)
      (console : Text)
      → length (text_of m) < 996
      → (text : Text) × (choose random (word_for b m) (client_at k addr (rest_for m more) console)
          ≡ ok (type_for b, text_of m) (client_at k addr more text))
  unfolding choose
  choose-ok false none random k addr more console h = (console, refl)
  choose-ok true none random k addr more console h = (console, refl)
  choose-ok false (some msg) random k addr more console h =
      let (text, scanned) = scan_message-ok k addr msg more console h in
      (text, >>=-ok scan_message _ (client_at k addr (msg ∷ more) console) scanned)
  choose-ok true (some msg) random k addr more console h =
      let (text, scanned) = scan_message-ok k addr msg more console h in
      (text, >>=-ok scan_message _ (client_at k addr (msg ∷ more) console) scanned)

  client_on_sock-ok :
      {A : Type 0} (m : Exec (Sock Kernel) A) (k k' : Kernel) (addr : SockaddrIn)
      (input : List Text) (console : Text) {a : A}
      → m (socket_at calls fd k) ≡ ok a (socket_at calls fd k')
      → on_sock m (client_at k addr input console) ≡ ok a (client_at k' addr input console)
  client_on_sock-ok m k k' addr input console e =
      member-ok (λ s. s.sock) (λ t s. record s { sock = t }) m (client_at k addr input console) e

  -- Where the user asks for a ZUN or a DOKO, alone or with a message of at most 995 characters, the
  -- round sends that datagram to the server, keeps the address of whoever answers in place of the
  -- server's, and prints last what it makes of the answer.
  pub send_zundoko_lem :
      (b : Bool) (m : Option Text) (random : ℕ) (k k' k'' : Kernel) (to from : SockaddrIn)
      (reply : List ℕ) (more : List Text) (console : Text)
      → length (text_of m) < 996
      → length reply ≤ buffer_size
      → let d = datagram (type_for b) (text_of m) in
        calls.sendto (some fd) d to k ≡ (some (length d), k')
        → calls.recvfrom (some fd) buffer_size k' ≡ (some (take buffer_size reply, from), k'')
        → (text : Text) × (send_zundoko calls random (client_at k to (words_for b m more) console)
            ≡ ok tt (client_at k'' from more (text ++ verdict (filled buffer_size reply))))
  unfolding send_zundoko
  send_zundoko_lem b m random k k' k'' to from reply more console h fit sent got =
      let prompt = codes "input('z':send ZUN, 'd':send DOKO, ELSE:sned random): " in
      let d = datagram (type_for b) (text_of m) in
      let buffer = message (type_for b) (text_of m) in
      let (text, chosen) = choose-ok b m random k to more (console ++ prompt) h in
      let text' = text ++ sent_text buffer (text_of m) in
      let sent_d =
        subst
          (λ t. sendto calls t to (socket_at calls fd k) ≡ ok (length d) (socket_at calls fd k'))
          (sym (sent-message (type_for b) (text_of m) h)) (sendto-ok calls fd d to k k' sent) in
      (
        text',
        ap (λ (ws : List Text). send_zundoko calls random (client_at k to ws console))
              (words_for_lem b m more)
            ∙ >>=-ok (scan_word 1000) _
                (client_at k to (word_for b m ∷ rest_for m more) (console ++ prompt))
                (scan_word-ok 1000 k to (word_for b m) (rest_for m more) (console ++ prompt)
                  (short b m))
            ∙ >>=-ok (choose random (word_for b m)) _
                (client_at k to (rest_for m more) (console ++ prompt)) chosen
            ∙ >>=-ok (on_sock (sendto calls (take (4 + message_length buffer) buffer) to)) _
                (client_at k to more text)
                (client_on_sock-ok (sendto calls (take (4 + message_length buffer) buffer) to) k k'
                  to more text sent_d)
            ∙ >>=-ok (on_sock (recvfrom calls buffer_size)) _ (client_at k' to more text') (
                client_on_sock-ok (recvfrom calls buffer_size) k' k'' to more text'
                  (recvfrom-ok calls fd buffer_size reply from k' k'' fit got)),
      )

verdict_lem :
    (r : List ℕ) {t : ℕ}
    → length r ≤ buffer_size
    → type_of r ≡ t
    → verdict (filled buffer_size r)
      ≡ (if t == kiyoshi then codes "Recv KIYOSHI !!! \n" else codes "Miss \n")
unfolding verdict
verdict_lem r h e = rw (type_of-filled buffer_size r h ∙ e) refl

pub length-answer :
    (past : List (List ℕ)) (d : List ℕ) → 2 ≤ length d → length (answer past d) ≡ length d
unfolding answer
length-answer past d h = elim (Bool-cases (type_of d == doko && streak past % 5 == 4)) [
  | inl p ↦
      rw p (length-take_le (length d) (0 ∷ kiyoshi ∷ drop 2 d) (omega (arith, length-drop 2 d)))
  | inr p ↦ rw p refl
]

type_of-answer :
    (past : List (List ℕ)) (b : Bool) (msg : Text)
    → type_of (answer past (datagram (type_for b) msg))
      ≡ (if b && streak past % 5 == 4 then kiyoshi else type_for b)
unfolding answer type_of htons ntohs
type_of-answer past false msg = refl
type_of-answer past true msg = elim (Bool-cases (streak past % 5 == 4)) [
  | inl p ↦ rw p refl
  | inr p ↦ rw p refl
]

told :
    (b c : Bool)
    → (if (if b && c then kiyoshi else type_for b) == kiyoshi
        then codes "Recv KIYOSHI !!! \n"
        else codes "Miss \n")
      ≡ (if b && c then codes "Recv KIYOSHI !!! \n" else codes "Miss \n")
told true true = refl
told true false = refl
told false true = refl
told false false = refl

-- What the client says of the server's answer to its datagram, after the datagrams `past`: that
-- KIYOSHI came, if it sent a DOKO and the number of ZUN right before leaves 4 when divided by 5, and
-- "Miss" in all other cases. Its message has at most 995 characters.
pub verdict-answer :
    (past : List (List ℕ)) (b : Bool) (msg : Text)
    → length msg < 996
    → verdict (filled buffer_size (answer past (datagram (type_for b) msg)))
      ≡ (if b && streak past % 5 == 4 then codes "Recv KIYOSHI !!! \n" else codes "Miss \n")
verdict-answer past b msg h =
    let d = datagram (type_for b) msg in
    let fits = datagram_fits (type_for b) msg h in
    let same_length = length-answer past d (omega arith) in
    verdict_lem (answer past d) (omega (arith, fits, same_length)) (type_of-answer past b msg)
    ∙ told b (streak past % 5 == 4)
