-- ===== src/Tests/Zundoko.antt =====
-- The game on a network that is two queues.
use libpgen.Base.{
  false, ℕ, ◌%◌, ◌≡◌, ◌<◌, refl, List, [], ◌∷◌, ◌++◌, true, some, none, arith, length, All, sym,
  ◌∙◌,
}
use libpgen.Base.Bytes.{htons, ntohs}
use libpgen.Base.Run.{ok}
use libpgen.Base.Text.{Text, codes}
use libpgen.Zundoko.{zun, doko, type_of}
use libpgen.Zundoko.Socket.{SockaddrIn}
use libpgen.Zundoko.Server.{Server, ZdState, zz, buffer_size, serve}
use libpgen.Zundoko.Streak.{index, streak}
use libpgen.Zundoko.Session.{Choice, input_for, said, zuns_before}
use libpgen.Zundoko.Client.{play}
use libpgen.Zundoko.Link.{Queues, queue_calls, queues, at, here, link_calls, play_linked}
use libpgen.Zundoko.Game.{Datagrams, answers, server_at, serve-answers}
use libpgen.Zundoko.Outcome.{kiyoshi_comes}
use libpgen.Zundoko.Exchange.{datagram, client_at}

abbrev one_zun : List ℕ × SockaddrIn
one_zun = (datagram zun [], here)

abbrev one_doko : List ℕ × SockaddrIn
one_doko = (datagram doko (codes "hi"), here)

-- Two more ZUN and a DOKO, for a server that has seen two.
abbrev waiting : Datagrams
waiting = one_zun ∷ one_zun ∷ one_doko ∷ []

abbrev seen : List (List ℕ)
seen = one_zun.0 ∷ one_zun.0 ∷ []

abbrev before_all : Queues
before_all = record { inbox = waiting; outbox = [] }

counted : index zz ≡ streak seen % 5
unfolding index streak type_of ntohs htons
counted = refl

serve-answers_example :
    (k' : Queues) × (state' : ZdState) × (text : Text) × (serve queue_calls 3
        (server_at queue_calls 3 before_all zz [])
      ≡ ok tt (server_at queue_calls 3 k' state' text))
    × (queues.outbox k' ≡ [] ++ answers seen waiting)
    × (queues.inbox k' ≡ [])
unfolding queues buffer_size
serve-answers_example =
    serve-answers queue_calls 3 queues waiting seen before_all zz [] refl
      (omega arith, (omega arith, (omega arith, tt))) counted

abbrev four_zun : Datagrams
four_zun = one_zun ∷ one_zun ∷ one_zun ∷ one_zun ∷ []

abbrev a_game : Queues
a_game = record { inbox = (one_zun ∷ []) ++ one_doko ∷ four_zun ++ one_doko ∷ []; outbox = [] }

a_doko : type_of one_doko.0 ≡ doko
unfolding type_of ntohs htons
a_doko = refl

a_zun : type_of one_zun.0 ≡ zun
unfolding type_of ntohs htons
a_zun = refl

game_fits :
    All (λ p. length p.0 < buffer_size) ((one_zun ∷ []) ++ one_doko ∷ four_zun ++ one_doko ∷ [])
unfolding buffer_size
game_fits = (
  omega arith,
  (omega arith, (omega arith, (omega arith, (omega arith, (omega arith, (omega arith, tt)))))),
)

kiyoshi_comes_example :
    (k' : Queues) × (state' : ZdState) × (text : Text) × (replies : Datagrams) × (serve queue_calls
        7
        (server_at queue_calls 3 a_game zz [])
      ≡ ok tt (server_at queue_calls 3 k' state' text))
    × (length replies ≡ 6)
    × (queues.outbox k' ≡ [] ++ (replies ++ (0 ∷ 2 ∷ 0 ∷ 2 ∷ codes "hi", here) ∷ []))
unfolding queues htons
kiyoshi_comes_example =
    kiyoshi_comes queue_calls 3 queues (one_zun ∷ []) four_zun one_doko.0 one_doko.0 here here
      a_game zz [] refl game_fits (λ e. cc (sym a_doko ∙ e)) (a_zun, (a_zun, (a_zun, (a_zun, tt))))
      refl a_doko

-- Four ZUN, one of them with a message, and a DOKO.
abbrev choices : List Choice
choices = (false, some (codes "hi")) ∷ (false, none) ∷ (false, none) ∷ (true, none) ∷ []

play_linked_example :
    (s : Server Queues) × (from : SockaddrIn) × (text : Text) × (play link_calls
        (0 ∷ 0 ∷ 0 ∷ 0 ∷ 0 ∷ [])
        (client_at link_calls 4
          (at [] [] ZdState.none [])
          here
          (input_for ((false, none) ∷ choices))
          [])
      ≡ ok tt (client_at link_calls 4 s from [] (text ++ codes "Recv KIYOSHI !!! \n")))
unfolding said zuns_before
play_linked_example =
    play_linked (false, none) choices (0 ∷ 0 ∷ 0 ∷ 0 ∷ 0 ∷ []) 4 here []
      (omega arith, (omega arith, (omega arith, (omega arith, (omega arith, tt))))) refl
