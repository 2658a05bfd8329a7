-- ===== src/Network/Exchange/Destination.antt =====
-- Where the datagrams of a packet client of internal/portmapper go.
use nat_pmp.Common.{ℕ, zero, suc, ◌≡◌, refl, subst, sym, List, [], ◌∷◌, ◌++◌, replicate}
use nat_pmp.Addr.{AddrPort}
use nat_pmp.Network.{History}
use nat_pmp.Network.Exchange.Answer.{sent, Sends}

-- Each datagram is for the server.
abbrev pub AllTo : AddrPort → List (List ℕ × AddrPort) → Type 0
AllTo server [] = Unit
AllTo server ((b, to) ∷ rest) = (to ≡ server) × AllTo server rest

-- The same of the datagrams that were sent.
pub SendsOnlyTo : AddrPort → History → Type 0
SendsOnlyTo server h = AllTo server (sent h)

AllTo-replicate :
    (server : AddrPort) (n : ℕ) (b : List ℕ) (rest : List (List ℕ × AddrPort))
    → AllTo server rest
    → AllTo server (replicate n (b, server) ++ rest)
AllTo-replicate server zero b rest p = p
AllTo-replicate server (suc n) b rest p = (refl, AllTo-replicate server n b rest p)

pub Sends-SendsOnlyTo :
    (req : List ℕ) (server : AddrPort) (left : ℕ) (h h' : History)
    → Sends req server left h h'
    → SendsOnlyTo server h
    → SendsOnlyTo server h'
unfolding SendsOnlyTo
Sends-SendsOnlyTo req server left h h' s p =
    subst (AllTo server) (sym s.only) (AllTo-replicate server s.times req (sent h) p)

pub same_sent-SendsOnlyTo :
    (server : AddrPort) (h h' : History)
    → sent h' ≡ sent h
    → SendsOnlyTo server h
    → SendsOnlyTo server h'
unfolding SendsOnlyTo
same_sent-SendsOnlyTo server h h' e p = subst (AllTo server) (sym e) p

pub none_sent-SendsOnlyTo : (server : AddrPort) (h : History) → sent h ≡ [] → SendsOnlyTo server h
unfolding SendsOnlyTo
none_sent-SendsOnlyTo server h e = rw e tt
