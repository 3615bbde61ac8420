-- ===== src/Poller/EPoll/Local.antt =====
-- What a call on one channel leaves as it was.
use native.Mathlib.Decide.{ℕ_discrete}
use tools_cxx.Prelude.{
  ℕ, true, ◌≡◌, ◌≢◌, refl, sym, ap, ◌∙◌, subst, codes, Option, none, some, arith, update_at_self,
}
use tools_cxx.Prelude.Int.{ℤ}
use tools_cxx.Log.Logger.Report.{report-undefined}
use tools_cxx.Poller.Poll.{maps_to}
use tools_cxx.Poller.EPoll.{
  Epoll, EpollEvent, Op, done, undefined, EPollPoller, event_of, is_fatal, update, set_index,
}
use tools_cxx.Poller.EPoll.Invariant.{IsWatched, IsValid}

pub maps_to_self : (store : ℕ → Option ℕ) (fd c : ℕ) → store fd ≡ some c → maps_to store fd c ≡ true
maps_to_self store fd c e = ground (arith, e)

module _ (os : Epoll) where
  -- A call on a channel changes the poller at that channel and its descriptor only.
  pub record IsLocal (p : EPollPoller os) (c : ℕ) (q : EPollPoller os) : Type 0 where
    pub store : (fd : ℕ) → fd ≢ (p.channels c).fd → q.channel_store fd ≡ p.channel_store fd
    pub interest :
        (fd : ℕ) → fd ≢ (p.channels c).fd → os.interest q.kernel fd ≡ os.interest p.kernel fd
    pub channels : (d : ℕ) → d ≢ c → q.channels d ≡ p.channels d

  module _ (p : EPollPoller os) (c : ℕ) (q : EPollPoller os) (v : IsValid os p)
      (l : IsLocal p c q) where
    IsWatched-kept :
        (fd d : ℕ) (e : EpollEvent)
        → fd ≢ (p.channels c).fd
        → IsWatched os p fd d e
        → IsWatched os q fd d e
    IsWatched-kept fd d e ne w =
        let same : q.channels d ≡ p.channels d =
          l.channels d (λ x. ne (cc (w.named, ap (λ y. (p.channels y).fd) x))) in
        record {
          stored = l.store fd ne ∙ w.stored;
          named = ap (λ ch. ch.fd) same ∙ w.named;
          added = ap (λ ch. ch.index) same ∙ w.added;
          waits = l.interest fd ne ∙ w.waits;
          handed = w.handed;
        }

    -- The table and the list agree again when both hold the channel, or neither its descriptor.
    pub IsValid-watched : (e : EpollEvent) → IsWatched os q (p.channels c).fd c e → IsValid os q
    IsValid-watched e w = record {
      table = λ fd d s. elim (ℕ_discrete fd (p.channels c).fd) [
        | yes at ↦
            let same : c ≡ d = cc (w.stored, s, at) in
            (
              e,
              subst (λ x. IsWatched os q x d e) (sym at)
                  (subst (λ x. IsWatched os q (p.channels c).fd x e) same w),
            )
        | no ne ↦
            let (f, old) = v.table fd d (sym (l.store fd ne) ∙ s) in
            (f, IsWatched-kept fd d f ne old)
      ];
      listed = λ fd f s. elim (ℕ_discrete fd (p.channels c).fd) [
        | yes at ↦
            let same : e ≡ f = cc (w.waits, s, at) in
            subst (λ x. IsWatched os q x f.ptr f) (sym at)
              (subst (λ x. IsWatched os q (p.channels c).fd x.ptr x) same
                (subst (λ x. IsWatched os q (p.channels c).fd x e) (sym w.handed) w))
        | no ne ↦ IsWatched-kept fd f.ptr f ne (v.listed fd f (sym (l.interest fd ne) ∙ s))
      ];
    }

    pub IsValid-absent :
        q.channel_store (p.channels c).fd ≡ none
        → os.interest q.kernel (p.channels c).fd ≡ none
        → IsValid os q
    IsValid-absent gone quiet = record {
      table = λ fd d s. elim (ℕ_discrete fd (p.channels c).fd) [
        | yes at ↦ absurd (cc (gone, s, at))
        | no ne ↦
            let (f, old) = v.table fd d (sym (l.store fd ne) ∙ s) in
            (f, IsWatched-kept fd d f ne old)
      ];
      listed = λ fd f s. elim (ℕ_discrete fd (p.channels c).fd) [
        | yes at ↦ absurd (cc (quiet, s, at))
        | no ne ↦ IsWatched-kept fd f.ptr f ne (v.listed fd f (sym (l.interest fd ne) ∙ s))
      ];
    }

  pub update-some :
      (op : Op) (p : EPollPoller os) (c : ℕ) (k : os.Kernel)
      → os.epoll_ctl op (p.channels c).fd (event_of os p c) p.kernel ≡ some k
      → update os op p c ≡ done (record p { kernel = k })
  unfolding update
  update-some op p c k e = rw (update, e) refl

  -- A refused call ends in a message whose behaviour is not defined.
  pub update-none :
      (op : Op) (p : EPollPoller os) (c : ℕ)
      → os.epoll_ctl op (p.channels c).fd (event_of os p c) p.kernel ≡ none
      → update os op p c ≡ undefined
  unfolding update
  update-none op p c e =
      let event = event_of os p c in
      let fd = (p.channels c).fd in
      rw
        (
          update,
          e,
          report-undefined (is_fatal os op) (os.errno op fd event p.kernel) (os.context p.kernel)
              (codes "EPollPoller::poll()") (os.errno-epoll_ctl op fd event p.kernel e)
              (os.context-IsShort p.kernel) refl (omega arith),
        )
        refl

  pub with_index :
      (c : ℕ) (p : EPollPoller os) (i : ℤ)
      → set_index os p c i c ≡ record (p.channels c) { index = i }
  with_index c p i = update_at_self p.channels c (record (p.channels c) { index = i })
