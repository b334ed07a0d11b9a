-- ===== src/Network/Registry/Opening.antt =====
-- What the network watches hold, and how the sockets and their watches are opened and closed.
use artik_sdk.Prelude.{
  ℕ, ◌+◌, ◌≡◌, ◌<◌, refl, sym, ap, subst, not, Option, none, some, List, [], ◌∷◌, arith, length,
}
use artik_sdk.Prelude.Cases.{if_rule}
use artik_sdk.Error.{ArtikError, s_ok, e_no_mem}
use artik_sdk.Network.Registry.{
  Status, Sys, Answers, clean_watch_online_status, watch_sockets, open_icmp, open_netlink,
  initialize_watch_online_status,
}

-- Nothing is held.
pub record IsIdle (s : Sys) : Type 0 where
  pub no_loops : s.loops ≡ 0
  pub no_sockets : s.sockets ≡ []
  pub no_watches : s.watches ≡ []
  pub no_addrs : s.addrs ≡ 0
  pub no_blocks : s.blocks ≡ 0

-- One reference to the loop, one block, two sockets, a watch of each, and an address for each node.
pub record IsServing (st : Status) (s : Sys) : Type 0 where
  pub one_loop : s.loops ≡ 1
  pub one_block : s.blocks ≡ 1
  pub netlink_positive : 0 < st.netlink_sock
  pub icmp_positive : 0 < st.icmp_sock
  pub two_sockets : s.sockets ≡ st.icmp_sock ∷ st.netlink_sock ∷ []
  pub two_watches : s.watches ≡ st.watch_icmp_id ∷ st.watch_netlink_id ∷ []
  pub an_address_each : s.addrs ≡ length st.root

-- Without nodes there is no status and nothing is held; with a status there is a node.
abbrev pub Balanced : Option Status → Sys → Type 0
Balanced none s = IsIdle s
Balanced (some st) s = IsServing st s × (0 < length st.root)

abbrev pub IsBalanced : Sys → Type 0
IsBalanced s = Balanced s.status s

abbrev pub IsPositive : Option ℕ → Type 0
IsPositive none = Unit {0}
IsPositive (some fd) = 0 < fd

pub clean-IsBalanced :
    (st : Status) (s : Sys)
    → IsServing st s
    → s.addrs ≡ 0
    → IsBalanced (clean_watch_online_status st s)
unfolding clean_watch_online_status
clean-IsBalanced st s v z = record {
  no_loops = ground arith;
  no_sockets = ground arith;
  no_watches = ground arith;
  no_addrs = ground arith;
  no_blocks = ground arith;
}

-- What `initialize_watch_online_status` leaves.
unfoldable pub Ready : ArtikError → Option Status → Sys → Type 0
Ready ret none s = IsIdle s
Ready ret (some st) s = IsServing st s × (st.root ≡ []) × (ret ≡ s_ok)

record IsOpen (sockets : List ℕ) (s : Sys) : Type 0 where
  pub none_yet : s.status ≡ none
  pub a_loop : s.loops ≡ 1
  pub a_block : s.blocks ≡ 1
  pub open_sockets : s.sockets ≡ sockets
  pub no_watch : s.watches ≡ []
  pub no_addr : s.addrs ≡ 0

watch_sockets-Ready :
    (netlink icmp : ℕ) (wn wi : Option ℕ) (s : Sys)
    → IsOpen (icmp ∷ netlink ∷ []) s
    → 0 < netlink
    → 0 < icmp
    → let r = watch_sockets netlink icmp wn wi s in Ready r.0 r.1.status r.1
unfolding watch_sockets Ready
watch_sockets-Ready netlink icmp none wi s o p q = record {
  no_loops = ground arith;
  no_sockets = ground arith;
  no_watches = ground arith;
  no_addrs = ground arith;
  no_blocks = ground arith;
}
watch_sockets-Ready netlink icmp (some wn) none s o p q = record {
  no_loops = ground arith;
  no_sockets = ground arith;
  no_watches = ground arith;
  no_addrs = ground arith;
  no_blocks = ground arith;
}
watch_sockets-Ready netlink icmp (some wn) (some wi) s o p q = (
  record {
    one_loop = o.a_loop;
    one_block = o.a_block;
    netlink_positive = p;
    icmp_positive = q;
    two_sockets = o.open_sockets;
    two_watches = ground arith;
    an_address_each = o.no_addr;
  },
  refl,
  refl,
)

open_icmp-Ready :
    (netlink : ℕ) (icmp wn wi : Option ℕ) (s : Sys)
    → IsOpen (netlink ∷ []) s
    → 0 < netlink
    → IsPositive icmp
    → let r = open_icmp netlink icmp wn wi s in Ready r.0 r.1.status r.1
unfolding open_icmp Ready
open_icmp-Ready netlink none wn wi s o p q = record {
  no_loops = ground arith;
  no_sockets = ground arith;
  no_watches = o.no_watch;
  no_addrs = o.no_addr;
  no_blocks = ground arith;
}
open_icmp-Ready netlink (some icmp) wn wi s o p q =
    watch_sockets-Ready netlink icmp wn wi (record s { sockets = icmp ∷ s.sockets })
      (record {
        none_yet = o.none_yet;
        a_loop = o.a_loop;
        a_block = o.a_block;
        open_sockets = ap (◌∷◌ icmp) o.open_sockets;
        no_watch = o.no_watch;
        no_addr = o.no_addr;
      })
      p q

open_netlink-Ready :
    (a : Answers) (netlink : Option ℕ) (s : Sys)
    → IsOpen [] s
    → IsPositive netlink
    → IsPositive a.icmp
    → let r = open_netlink a netlink s in Ready r.0 r.1.status r.1
unfolding open_netlink Ready
open_netlink-Ready a none s o p q = record {
  no_loops = ground arith;
  no_sockets = o.open_sockets;
  no_watches = o.no_watch;
  no_addrs = o.no_addr;
  no_blocks = ground arith;
}
open_netlink-Ready a (some netlink) s o p q =
    if_rule (λ (r : ArtikError × Sys). Ready r.0 r.1.status r.1) a.bind
      (λ _.
        open_icmp-Ready netlink a.icmp a.watch_netlink a.watch_icmp
          (record s { sockets = netlink ∷ s.sockets })
          (record {
            none_yet = o.none_yet;
            a_loop = o.a_loop;
            a_block = o.a_block;
            open_sockets = ap (◌∷◌ netlink) o.open_sockets;
            no_watch = o.no_watch;
            no_addr = o.no_addr;
          })
          p q)
      (λ _. record {
        no_loops = ground arith;
        no_sockets = ground arith;
        no_watches = o.no_watch;
        no_addrs = o.no_addr;
        no_blocks = ground arith;
      })

still : (s : Sys) → s.status ≡ none → IsIdle s → Ready e_no_mem s.status s
unfolding Ready
still s n v = subst (λ o. Ready e_no_mem o s) (sym n) v

pub initialize-Ready :
    (a : Answers) (s : Sys)
    → s.status ≡ none
    → IsIdle s
    → IsPositive a.netlink
    → IsPositive a.icmp
    → let r = initialize_watch_online_status a s in Ready r.0 r.1.status r.1
unfolding initialize_watch_online_status Ready
initialize-Ready a s n v p q =
    if_rule (λ (r : ArtikError × Sys). Ready r.0 r.1.status r.1) (not a.loop) (λ _. still s n v)
      (λ _.
        if_rule (λ (r : ArtikError × Sys). Ready r.0 r.1.status r.1) (not a.block)
          (λ _. still s n v)
          (λ _.
            open_netlink-Ready a a.netlink (record s { loops = s.loops + 1; blocks = s.blocks + 1 })
              (record {
                none_yet = n;
                a_loop = ap (λ k. k + 1) v.no_loops;
                a_block = ap (λ k. k + 1) v.no_blocks;
                open_sockets = v.no_sockets;
                no_watch = v.no_watches;
                no_addr = v.no_addrs;
              })
              p q))
