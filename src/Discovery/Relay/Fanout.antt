-- ===== src/Discovery/Relay/Fanout.antt =====
-- To whom the relay passes a packet on (internal/discovery/relay.go, `fanout`).
use opl_core.Prelude.{
  if_known, ◌≡◌, ◌⊎◌, true, false, not, ◌||◌, List, [], ◌∷◌, ◌==◌, ==_iff, nat_eq, Bytes, arith,
  refl, sym, ap, inl, inr, Bool-cases,
}
use opl_core.Prelude.Addr.{Addr, addr_eq}
use opl_core.Discovery.Frame.{valid_sender}
use opl_core.Discovery.Relay.{
  Floats, Relay, Outside, Call, sent, host_ip, contains_ip, fanout, count_sent,
}

-- the address is one of the list's
pub data IsIn (ip : Addr) : List Addr → Type 0 where
  first : {m : Addr} {ms : List Addr} → ip ≡ m → IsIn ip (m ∷ ms)
  later : {m : Addr} {ms : List Addr} → IsIn ip ms → IsIn ip (m ∷ ms)

pub data IsCalled (c : Call) : List Call → Type 0 where
  last : {d : Call} {cs : List Call} → c ≡ d → IsCalled c (d ∷ cs)
  earlier : {d : Call} {cs : List Call} → IsCalled c cs → IsCalled c (d ∷ cs)

IsCalled-cases : {c d : Call} {cs : List Call} → IsCalled c (d ∷ cs) → (c ≡ d) ⊎ IsCalled c cs
IsCalled-cases (last e) = inl e
IsCalled-cases (earlier h) = inr h

pub contains_ip-IsIn : (ms : List Addr) (ip : Addr) → contains_ip ms ip ≡ true → IsIn ip ms
unfolding contains_ip
contains_ip-IsIn [] ip h = absurd (ground arith)
contains_ip-IsIn (m ∷ ms) ip h = elim (Bool-cases (m == ip)) [
  | inl same ↦ first (sym ((==_iff m ip).0 same))
  | inr other ↦ later (contains_ip-IsIn ms ip (rw other at h))
]

-- A member that is not the sender and not the host.
pub record IsOther (sender : Addr) (ms : List Addr) (ip : Addr) : Type 0 where
  pub listed : IsIn ip ms
  pub not_sender : (ip == sender) ≡ false
  pub valid : valid_sender ip ≡ true
  pub not_host : (ip == host_ip) ≡ false

IsOther-later :
    {sender m : Addr} {ms : List Addr} {ip : Addr}
    → IsOther sender ms ip
    → IsOther sender (m ∷ ms) ip
IsOther-later o = record {
  listed = later o.listed;
  not_sender = o.not_sender;
  valid = o.valid;
  not_host = o.not_host;
}

-- The calls of `before` and, to each of these members, the payload.
pub record FansOut (sender : Addr) (payload : Bytes) (ms : List Addr) (before after : List Call)
    : Type 0 where
  pub keeps : (c : Call) → IsCalled c before → IsCalled c after
  pub all : (ip : Addr) → IsOther sender ms ip → IsCalled (sent ip payload) after
  pub only :
      (c : Call)
      → IsCalled c after
      → IsCalled c before ⊎ ((ip : Addr) × (c ≡ sent ip payload) × IsOther sender ms ip)

module _ (sender : Addr) (payload : Bytes) where
  told :
      (m : Addr) (ms : List Addr) (cs ds : List Call)
      → (m == sender || not (valid_sender m) || m == host_ip) ≡ false
      → FansOut sender payload ms (sent m payload ∷ cs) ds
      → FansOut sender payload (m ∷ ms) cs ds
  told m ms cs ds goes f = record {
    keeps = λ c h. f.keeps c (earlier h);
    all = λ ip o. elim o.listed [
      | first same ↦ f.keeps (sent ip payload) (last (ap (λ x. sent x payload) same))
      | later rest ↦ f.all ip (record {
        listed = rest;
        not_sender = o.not_sender;
        valid = o.valid;
        not_host = o.not_host;
      })
    ];
    only = λ c h. elim (f.only c h) [
      | inr (ip, same, o) ↦ inr (ip, same, IsOther-later o)
      | inl before ↦ elim (IsCalled-cases before) [
        | inr old ↦ inl old
        | inl new ↦ inr (
          m,
          new,
          record {
            listed = first refl;
            not_sender = ground arith;
            valid = ground arith;
            not_host = ground arith;
          },
        )
      ]
    ];
  }

  passed :
      (m : Addr) (ms : List Addr) (cs ds : List Call)
      → (m == sender || not (valid_sender m) || m == host_ip) ≡ true
      → FansOut sender payload ms cs ds
      → FansOut sender payload (m ∷ ms) cs ds
  passed m ms cs ds skip f = record {
    keeps = f.keeps;
    all = λ ip o. elim o.listed [
      | first same ↦ absurd (ground (arith, o.not_sender, o.valid, o.not_host))
      | later rest ↦ f.all ip (record {
        listed = rest;
        not_sender = o.not_sender;
        valid = o.valid;
        not_host = o.not_host;
      })
    ];
    only = λ c h. elim (f.only c h) [
      | inr (ip, same, o) ↦ inr (ip, same, IsOther-later o)
      | inl before ↦ inl before
    ];
  }

  pub fanout-FansOut :
      {F : Type 0} (fl : Floats F) (out : Outside) (ms : List Addr) (r : Relay F)
      → FansOut sender payload ms r.calls (fanout fl out sender payload ms r).calls
  unfolding fanout
  fanout-FansOut fl out [] r = record {
    keeps = λ c h. h;
    all = λ ip o. absurd (elim o.listed [ ]);
    only = λ c h. inl h;
  }
  fanout-FansOut {F} fl out (m ∷ ms) r =
      let next : Relay F = record r {
        stats = count_sent (out.sends m payload) r.stats;
        calls = sent m payload ∷ r.calls;
      } in
      if_known (λ (x : Relay F). FansOut sender payload (m ∷ ms) r.calls x.calls)
        (m == sender || not (valid_sender m) || m == host_ip) (fanout fl out sender payload ms r)
        (fanout fl out sender payload ms next)
        (λ skip. passed m ms r.calls _ skip (fanout-FansOut fl out ms r))
        (λ goes. told m ms r.calls _ goes (fanout-FansOut fl out ms next))
