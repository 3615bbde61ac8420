-- ===== src/Poller/Choice/Same.antt =====
-- The choice of the poller makes no difference to what the kernel is asked for.
use tools_cxx.Prelude.{
  ℕ, ◌≡◌, ◌^◌, ◌%◌, refl, sym, ◌∙◌, ap, some, none, List, true, false, get_elem?,
}
use tools_cxx.Poller.Channel.{Channel}
use tools_cxx.Poller.Poll
use tools_cxx.Poller.Poll.{PollFd, PollPoller}
use tools_cxx.Poller.EPoll
use tools_cxx.Poller.EPoll.{Epoll, EpollEvent, EPollPoller, done}
use tools_cxx.Poller.Choice.{Call, Poller, polls, epolls, create_poller, run_calls}
use tools_cxx.Poller.Choice.Agrees.{Agrees, Agrees-masks, make-Agrees}
use tools_cxx.Poller.Choice.Calls.{Accepts, CanCallAll, run-Agrees}

module _ (os : Epoll) where
  -- The poller asks the kernel for the events of a mask, of 16 bits, on a descriptor.
  abbrev pub AsksFor : Poller os → ℕ → ℕ → Type 0
  AsksFor (polls p) fd mask =
      (i : ℕ) × (e : PollFd) × (get_elem? p.pollfd_list i ≡ some e)
      × (e.fd ≡ fd)
      × (e.events ≡ mask)
  AsksFor (epolls q) fd mask =
      (event : EpollEvent) × (os.interest q.kernel fd ≡ some event) × (event.events % 2 ^ 16 ≡ mask)

  Agrees-AsksFor :
      (p : PollPoller) (q : EPollPoller os)
      → Agrees os p q
      → (fd mask : ℕ)
      → (AsksFor (polls p) fd mask → AsksFor (epolls q) fd mask)
        × (AsksFor (epolls q) fd mask → AsksFor (polls p) fd mask)
  Agrees-AsksFor p q a fd mask = (
    λ (i, e, s, named, is).
        (let (event, waits, same) = a.masks i e s in
          (event, ap (os.interest q.kernel) (sym named) ∙ waits, sym same ∙ is)),
    λ (event, listed, is).
        (let (i, e, s, named, same) = Agrees-masks os p q a fd event listed in
          (i, e, s, named, same ∙ is)),
  )

  -- The poller that `create_poller` makes with USE_POLL and the one it makes without: after any sequence
  -- of calls in which each channel is new or registered, and registered where it is removed, neither has
  -- met a failed assertion or aborted, and both ask the kernel for the same events of the same
  -- descriptors, in the 16 bits of a mask that poll(2) takes. The interest list is empty at first, and
  -- epoll_ctl(2) accepts what fits it.
  pub create_poller-AsksFor :
      Accepts os
      → (kernel : os.Kernel) (channels : ℕ → Channel) (calls : List Call)
      → ((fd : ℕ) → os.interest kernel fd ≡ none)
      → CanCallAll (Poll.make channels) calls
      → (x y : Poller os) × (run_calls os (create_poller os true kernel channels) calls ≡ done x)
        × (run_calls os (create_poller os false kernel channels) calls ≡ done y)
        × ((fd mask : ℕ)
            → (AsksFor x fd mask → AsksFor y fd mask) × (AsksFor y fd mask → AsksFor x fd mask))
  unfolding run_calls create_poller
  create_poller-AsksFor accepts kernel channels calls empty can =
      let (p, q, first, second, a) =
        run-Agrees os accepts (Poll.make channels) (EPoll.make os kernel channels) calls
          (make-Agrees os kernel channels empty) can in
      (polls p, epolls q, rw first refl, rw second refl, Agrees-AsksFor p q a)
