-- ===== src/Zundoko/Session.antt =====
-- A user of client.cc who plays several rounds with server.cc.
use libpgen.Base.{
  ◌≤◌, ℕ, suc, ◌%◌, ◌<◌, ◌≡◌, refl, sym, ap, ◌∙◌, List, [], ◌∷◌, ◌++◌, Bool, true, false, Option,
  some, arith, length, take, ◌==◌, ◌&&◌, All, if◌then◌else◌,
}
use libpgen.Base.Run.{ok, >>=-ok}
use libpgen.Base.Text.{Text, codes}
use libpgen.Zundoko.{zun, doko, type_of}
use libpgen.Zundoko.Socket.{Calls, SockaddrIn}
use libpgen.Zundoko.Client.{buffer_size, send_zundoko, play}
use libpgen.Zundoko.Streak.{streak, answer}
use libpgen.Zundoko.Outcome.{streak-zun, streak-other}
use libpgen.Zundoko.Exchange.{
  datagram, datagram_fits, type_of-datagram, words_for, type_for, text_of, client_at,
  send_zundoko_lem, length-answer, verdict-answer,
}

-- What a user asks for in a round: a DOKO, where the first is true, or a ZUN, and a message.
abbrev pub Choice : Type 0
Choice = Bool × Option Text

abbrev pub datagram_for : Choice → List ℕ
datagram_for c = datagram (type_for c.0) (text_of c.1)

-- The words that the user types for rounds.
abbrev pub input_for : List Choice → List Text
input_for [] = []
input_for (c ∷ cs) = words_for c.0 c.1 (input_for cs)

-- How many of the newest choices are ZUN. The newest stands first.
unfoldable pub zuns_before : List Choice → ℕ
zuns_before [] = 0
zuns_before (c ∷ past) = let rest = zuns_before past in if c.0 then 0 else suc rest

-- What the client says of the round of `c` after the rounds `past`, and of the last of more rounds.
unfoldable pub said : List Choice → Choice → List Choice → Text
unfolding zuns_before
said past c [] =
    if c.0 && zuns_before past % 5 == 4 then codes "Recv KIYOSHI !!! \n" else codes "Miss \n"
said past c (d ∷ cs) = said (c ∷ past) d cs

abbrev pub datagrams : List Choice → List (List ℕ)
datagrams [] = []
datagrams (c ∷ cs) = datagram_for c ∷ datagrams cs

abbrev pub IsShort : Choice → Type 0
IsShort c = length (text_of c.1) < 996

-- A network with a server at its other end. `Holds k past` is what the kernel is like after the
-- datagrams `past`; the next datagram is answered as the server is to answer it after these.
pub record IsServed {Kernel : Type 0} (calls : Calls Kernel) (fd : ℕ) : Type 1 where
  pub Holds : Kernel → List (List ℕ) → Type 0
  pub answers :
      (k : Kernel) (n : ℕ) (past : List (List ℕ)) (d : List ℕ) (to : SockaddrIn)
      → Holds k past
      → length d ≤ buffer_size
      → (k' k'' : Kernel) × (from : SockaddrIn) × (calls.sendto (some fd) d to k
          ≡ (some (length d), k'))
        × (calls.recvfrom (some fd) n k' ≡ (some (take n (answer past d), from), k''))
        × Holds k'' (d ∷ past)

type_of-for : (c : Choice) → IsShort c → type_of (datagram_for c) ≡ type_for c.0
type_of-for (false, m) h = (type_of-datagram zun (text_of m) (omega arith) (omega (arith, h))).0
type_of-for (true, m) h = (type_of-datagram doko (text_of m) (omega arith) (omega (arith, h))).0

streak-datagrams :
    (past : List Choice) → All IsShort past → streak (datagrams past) ≡ zuns_before past
unfolding streak zuns_before
streak-datagrams [] all = refl
streak-datagrams ((false, m) ∷ past) (h, hs) =
    streak-zun (datagram_for (false, m)) (datagrams past) (type_of-for (false, m) h)
    ∙ ap suc (streak-datagrams past hs)
streak-datagrams ((true, m) ∷ past) (h, hs) =
    streak-other (datagram_for (true, m)) (datagrams past)
      (λ e. absurd (omega (arith, sym (type_of-for (true, m) h) ∙ e)))

module _ {Kernel : Type 0} (calls : Calls Kernel) (fd : ℕ) (server : IsServed calls fd) where
  round :
      (past : List Choice) (c : Choice) (more : List Text) (random : ℕ) (k : Kernel)
      (to : SockaddrIn) (console : Text)
      → All IsShort past
      → IsShort c
      → server.Holds k (datagrams past)
      → (k' : Kernel) × (from : SockaddrIn) × (text : Text) × (send_zundoko calls random
            (client_at calls fd k to (words_for c.0 c.1 more) console)
          ≡ ok tt (client_at calls fd k' from more (text ++ said past c [])))
        × server.Holds k' (datagrams (c ∷ past))
  unfolding said
  round past c more random k to console all h e =
      let d = datagram_for c in
      let fits = datagram_fits (type_for c.0) (text_of c.1) h in
      let (k', k'', from, sent, got, next) =
        server.answers k buffer_size (datagrams past) d to e fits in
      let reply = answer (datagrams past) d in
      let same = length-answer (datagrams past) d (omega arith) in
      let (text, played) =
        send_zundoko_lem calls fd c.0 c.1 random k k' k'' to from reply more console h
          (omega (arith, same, fits)) sent got in
      let told = verdict-answer (datagrams past) c.0 (text_of c.1) h in
      (
        k'',
        from,
        text,
        played
            ∙ ap (λ (t : Text). ok tt (client_at calls fd k'' from more (text ++ t)))
                (told
                  ∙ ap
                      (λ (n : ℕ).
                        if c.0 && n % 5 == 4 then codes "Recv KIYOSHI !!! \n" else codes "Miss \n")
                      (streak-datagrams past all)),
        next,
      )

  -- A user who asks for `c` and then for `cs`, with messages of at most 995 characters, after the
  -- rounds `past`, gets through as many rounds, and the last that the client prints is that KIYOSHI
  -- came, if the last choice is a DOKO and the number of ZUN right before it leaves 4 when divided by
  -- 5, and "Miss" in all other cases. The server at the other end of the network answers as
  -- specified.
  pub play-said :
      (past cs : List Choice) (c : Choice) (randoms : List ℕ) (k : Kernel) (to : SockaddrIn)
      (console : Text)
      → All IsShort past
      → All IsShort (c ∷ cs)
      → server.Holds k (datagrams past)
      → length randoms ≡ length (c ∷ cs)
      → (k' : Kernel) × (from : SockaddrIn) × (text : Text) × (play calls randoms
            (client_at calls fd k to (input_for (c ∷ cs)) console)
          ≡ ok tt (client_at calls fd k' from [] (text ++ said past c cs)))
  unfolding play said
  play-said past cs c [] k to console all (h, hs) e l = absurd (omega (arith, l))
  play-said past [] c (r ∷ []) k to console all (h, hs) e l =
      let (k', from, text, played, next) = round past c [] r k to console all h e in
      (
        k',
        from,
        text,
        >>=-ok (send_zundoko calls r) _ (client_at calls fd k to (input_for (c ∷ [])) console)
            played,
      )
  play-said past [] c (r ∷ r' ∷ rs) k to console all (h, hs) e l = absurd (omega (arith, l))
  play-said past (d ∷ cs) c (r ∷ rs) k to console all (h, hs) e l =
      let (k', from, text, played, next) =
        round past c (input_for (d ∷ cs)) r k to console all h e in
      let (k'', from', text', rest) =
        play-said (c ∷ past) cs d rs k' from (text ++ said past c []) (h, all) hs next
          (omega (arith, l)) in
      (
        k'',
        from',
        text',
        >>=-ok (send_zundoko calls r) _ (client_at calls fd k to (input_for (c ∷ d ∷ cs)) console)
              played
            ∙ rest,
      )
