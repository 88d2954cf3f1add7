-- ===== src/Net/Poller/Sync.antt =====
-- The kernel's interest list, the poller's map and the channels agree, and no call of `epoll_ctl` is
-- refused: calls on channels of different descriptors, in any order, never end the process.
use cluster_chat_server.Prelude.{
  ℕ, ◌≡◌, refl, List, [], ◌∷◌, true, false, Option, none, some, arith, if◌then◌else◌, ◌==◌, ==_iff,
  Bool-cases, inl, inr, ◌∙◌, ◌>>=◌, subst,
}
use cluster_chat_server.Net.Channel
use cluster_chat_server.Net.Channel.{
  Channel, Interest, Index, new, added, delete, none_event, is_none_event,
}
use cluster_chat_server.Net.Poller.{
  Epoll, Poller, Ctl, add, mod_, del, ChannelMap, has_fd, erase_fd, set_fd, update, update_channel,
  remove_channel, Call, calls_enable_reading, calls_disable_reading, calls_enable_writing,
  calls_disable_writing, calls_disable_all, calls_remove, perform,
}

-- `epoll_ctl(2)`: ADD succeeds for a descriptor that is not registered, MOD and DEL for one that is;
-- no call touches other descriptors.
pub record EpollLaws (E : Epoll) : Type 0 where
  pub registered : E.Kernel → ℕ → Option Interest
  pub ctl_add :
      (fd : ℕ) (ev : Interest) (k : E.Kernel)
      → registered k fd ≡ none
      → (E.epoll_ctl add fd ev k).0 ≡ true
  pub registered_add :
      (fd j : ℕ) (ev : Interest) (k : E.Kernel)
      → registered k fd ≡ none
      → registered (E.epoll_ctl add fd ev k).1 j ≡ (if fd == j then some ev else registered k j)
  pub ctl_mod :
      (fd : ℕ) (old ev : Interest) (k : E.Kernel)
      → registered k fd ≡ some old
      → (E.epoll_ctl mod_ fd ev k).0 ≡ true
  pub registered_mod :
      (fd j : ℕ) (old ev : Interest) (k : E.Kernel)
      → registered k fd ≡ some old
      → registered (E.epoll_ctl mod_ fd ev k).1 j ≡ (if fd == j then some ev else registered k j)
  pub ctl_del :
      (fd : ℕ) (old ev : Interest) (k : E.Kernel)
      → registered k fd ≡ some old
      → (E.epoll_ctl del fd ev k).0 ≡ true
  pub registered_del :
      (fd j : ℕ) (old ev : Interest) (k : E.Kernel)
      → registered k fd ≡ some old
      → registered (E.epoll_ctl del fd ev k).1 j ≡ (if fd == j then none else registered k j)

has_fd-erase_fd :
    (fd j : ℕ) (fs : ChannelMap)
    → has_fd j (erase_fd fd fs) ≡ (if fd == j then false else has_fd j fs)
unfolding has_fd erase_fd
has_fd-erase_fd fd j [] = ground arith
has_fd-erase_fd fd j (f ∷ fs) = ground (arith, has_fd-erase_fd fd j fs)

has_fd-set_fd :
    (fd j : ℕ) (fs : ChannelMap) → has_fd j (set_fd fd fs) ≡ (if fd == j then true else has_fd j fs)
unfolding set_fd has_fd
has_fd-set_fd fd j fs = ground arith

module _ ⦃E : Epoll⦄ (laws : EpollLaws E) where
  open laws use {registered}

  -- A channel whose index says so is registered with its events, and every other is not.
  pub data InSync (c : Channel) (p : Poller) : Type 0 where
    at_new :
        c.index ≡ new
        → registered p.kernel c.fd ≡ none
        → has_fd c.fd p.channels ≡ false
        → InSync c p
    at_added :
        c.index ≡ added
        → registered p.kernel c.fd ≡ some c.events
        → has_fd c.fd p.channels ≡ true
        → InSync c p
    at_delete :
        c.index ≡ delete
        → registered p.kernel c.fd ≡ none
        → has_fd c.fd p.channels ≡ true
        → InSync c p

  -- Other descriptors are as before.
  pub Apart : ℕ → Poller → Poller → Type 0
  Apart fd p q =
      (j : ℕ)
      → (fd == j) ≡ false
      → (registered q.kernel j ≡ registered p.kernel j)
        × (has_fd j q.channels ≡ has_fd j p.channels)

  pub record Kept (c : Channel) (p : Poller) (r : Option (Channel × Poller)) : Type 0 where
    pub next : Channel
    pub poller : Poller
    pub returns : r ≡ some (next, poller)
    pub sync : InSync next poller
    pub same_fd : next.fd ≡ c.fd
    pub apart : Apart c.fd p poller

  update-ok :
      (op : Ctl) (c : Channel) (p : Poller)
      → (E.epoll_ctl op c.fd c.events p.kernel).0 ≡ true
      → update op c p ≡ some (record p { kernel = (E.epoll_ctl op c.fd c.events p.kernel).1 })
  unfolding update
  update-ok op c p h = rw (h, update)

  -- `updateChannel` for a channel whose events the owner has just set to `ev`.
  update_channel-Kept :
      (c : Channel) (ev : Interest) (p : Poller)
      → InSync c p
      → Kept c p (update_channel (record c { events = ev }) p)
  unfolding update_channel Apart
  update_channel-Kept c ev p (at_new i r m) =
      let c' = record c { events = ev; index = added } in
      let p' = record p { channels = set_fd c.fd p.channels } in
      let reg = laws.registered_add c.fd in
      record {
        next = c';
        poller = record p' { kernel = (E.epoll_ctl add c.fd ev p.kernel).1 };
        returns = rw (i, update_channel, update-ok add c' p' (laws.ctl_add c.fd ev p.kernel r));
        sync =
            at_added refl (ground (arith, reg c.fd ev p.kernel r))
              (ground (arith, has_fd-set_fd c.fd c.fd p.channels));
        same_fd = refl;
        apart = λ j o.
            (ground (arith, reg j ev p.kernel r), ground (arith, has_fd-set_fd c.fd j p.channels));
      }
  update_channel-Kept c ev p (at_delete i r m) =
      let c' = record c { events = ev; index = added } in
      let reg = laws.registered_add c.fd in
      record {
        next = c';
        poller = record p { kernel = (E.epoll_ctl add c.fd ev p.kernel).1 };
        returns = rw (i, update_channel, update-ok add c' p (laws.ctl_add c.fd ev p.kernel r));
        sync = at_added refl (ground (arith, reg c.fd ev p.kernel r)) m;
        same_fd = refl;
        apart = λ j o. (ground (arith, reg j ev p.kernel r), refl);
      }
  update_channel-Kept c ev p (at_added i r m) =
      elim (Bool-cases (is_none_event (record c { events = ev }))) [
        | inl e ↦
            let reg = laws.registered_del c.fd in
            record {
              next = record c { events = ev; index = delete };
              poller = record p { kernel = (E.epoll_ctl del c.fd ev p.kernel).1 };
              returns = rw (
                i,
                update_channel,
                e,
                update-ok del (record c { events = ev }) p
                    (laws.ctl_del c.fd c.events ev p.kernel r),
              );
              sync = at_delete refl (ground (arith, reg c.fd c.events ev p.kernel r)) m;
              same_fd = refl;
              apart = λ j o. (ground (arith, reg j c.events ev p.kernel r), refl);
            }
        | inr e ↦
            let reg = laws.registered_mod c.fd in
            record {
              next = record c { events = ev };
              poller = record p { kernel = (E.epoll_ctl mod_ c.fd ev p.kernel).1 };
              returns =
                  rw
                    (
                      i,
                      update_channel,
                      e,
                      update-ok mod_ (record c { events = ev }) p
                          (laws.ctl_mod c.fd c.events ev p.kernel r),
                    )
                    (ground arith);
              sync = at_added i (ground (arith, reg c.fd c.events ev p.kernel r)) m;
              same_fd = refl;
              apart = λ j o. (ground (arith, reg j c.events ev p.kernel r), refl);
            }
      ]

  remove_channel-Kept : (c : Channel) (p : Poller) → InSync c p → Kept c p (remove_channel c p)
  unfolding remove_channel Apart
  remove_channel-Kept c p (at_new i r m) = record {
    next = record c { index = new };
    poller = record p { channels = erase_fd c.fd p.channels };
    returns = rw (i, remove_channel);
    sync = at_new refl r (ground (arith, has_fd-erase_fd c.fd c.fd p.channels));
    same_fd = refl;
    apart = λ j o. (refl, ground (arith, has_fd-erase_fd c.fd j p.channels));
  }
  remove_channel-Kept c p (at_delete i r m) = record {
    next = record c { index = new };
    poller = record p { channels = erase_fd c.fd p.channels };
    returns = rw (i, remove_channel);
    sync = at_new refl r (ground (arith, has_fd-erase_fd c.fd c.fd p.channels));
    same_fd = refl;
    apart = λ j o. (refl, ground (arith, has_fd-erase_fd c.fd j p.channels));
  }
  remove_channel-Kept c p (at_added i r m) =
      let p' = record p { channels = erase_fd c.fd p.channels } in
      let reg = laws.registered_del c.fd in
      record {
        next = record c { index = new };
        poller = record p' { kernel = (E.epoll_ctl del c.fd c.events p.kernel).1 };
        returns = rw (
          i,
          remove_channel,
          update-ok del c p' (laws.ctl_del c.fd c.events c.events p.kernel r),
        );
        sync =
            at_new refl (ground (arith, reg c.fd c.events c.events p.kernel r))
              (ground (arith, has_fd-erase_fd c.fd c.fd p.channels));
        same_fd = refl;
        apart = λ j o. (
          ground (arith, reg j c.events c.events p.kernel r),
          ground (arith, has_fd-erase_fd c.fd j p.channels),
        );
      }

  -- Every call on a channel that agrees with the kernel returns, and leaves the channel, the map
  -- and the kernel in agreement; other descriptors are not touched.
  pub perform-Kept :
      (call : Call) (c : Channel) (p : Poller) → InSync c p → Kept c p (perform call c p)
  unfolding perform Channel.enable_reading Channel.disable_reading Channel.enable_writing
      Channel.disable_writing Channel.disable_all
  perform-Kept calls_enable_reading c p h = update_channel-Kept c _ p h
  perform-Kept calls_disable_reading c p h = update_channel-Kept c _ p h
  perform-Kept calls_enable_writing c p h = update_channel-Kept c _ p h
  perform-Kept calls_disable_writing c p h = update_channel-Kept c _ p h
  perform-Kept calls_disable_all c p h = update_channel-Kept c _ p h
  perform-Kept calls_remove c p h = remove_channel-Kept c p h

-- The channels of one loop, by their descriptors, with the poller.
pub record Loop ⦃E : Epoll⦄ : Type 0 where
  pub chans : ℕ → Channel
  pub poller : Poller

module _ ⦃E : Epoll⦄ where
  -- A call on one of the channels.
  unfoldable pub call_one : ℕ × Call → Loop → Option Loop
  call_one (fd, call) l = do
    (c, p) ← perform call (l.chans fd) l.poller
    some (record { chans = λ j. if fd == j then c else l.chans j; poller = p })

  unfoldable pub call_all : List (ℕ × Call) → Loop → Option Loop
  call_all [] l = some l
  call_all (x ∷ xs) l = call_one x l >>= call_all xs

module _ ⦃E : Epoll⦄ (laws : EpollLaws E) where
  pub record AllInSync (l : Loop) : Type 0 where
    pub fds : (j : ℕ) → (l.chans j).fd ≡ j
    pub sync : (j : ℕ) → InSync laws (l.chans j) l.poller

  InSync-Apart :
      (fd : ℕ) (c : Channel) (p q : Poller)
      → (fd == c.fd) ≡ false
      → Apart laws fd p q
      → InSync laws c p
      → InSync laws c q
  unfolding Apart
  InSync-Apart fd c p q o a (at_new i r m) = at_new i ((a c.fd o).0 ∙ r) ((a c.fd o).1 ∙ m)
  InSync-Apart fd c p q o a (at_added i r m) = at_added i ((a c.fd o).0 ∙ r) ((a c.fd o).1 ∙ m)
  InSync-Apart fd c p q o a (at_delete i r m) = at_delete i ((a c.fd o).0 ∙ r) ((a c.fd o).1 ∙ m)

  call_one-AllInSync :
      (x : ℕ × Call) (l : Loop)
      → AllInSync l
      → (l' : Loop) × (call_one x l ≡ some l') × AllInSync l'
  unfolding call_one
  call_one-AllInSync (fd, call) l h =
      let k = perform-Kept laws call (l.chans fd) l.poller (h.sync fd) in
      let l' : Loop = record {
        chans = λ j. if fd == j then k.next else l.chans j;
        poller = k.poller;
      } in
      (
        l',
        rw (k.returns, ◌>>=◌),
        record {
          fds = λ j. elim (Bool-cases (fd == j)) [
            | inl e ↦ rw e (k.same_fd ∙ h.fds fd ∙ (==_iff fd j).0 e)
            | inr e ↦ rw e (h.fds j)
          ];
          sync = λ j. elim (Bool-cases (fd == j)) [
            | inl e ↦ rw e k.sync
            | inr e ↦ rw e (
                InSync-Apart fd (l.chans j) l.poller k.poller (rw h.fds e)
                  (subst (λ f. Apart laws f l.poller k.poller) (h.fds fd) k.apart) (h.sync j))
          ];
        },
      )

  -- With a kernel that follows the rules of `epoll_ctl(2)`, from a state in which the channels, the
  -- map and the kernel agree: no sequence of calls on the channels of a loop ends the process, and
  -- after it they agree again.
  pub call_all-AllInSync :
      (xs : List (ℕ × Call)) (l : Loop)
      → AllInSync l
      → (l' : Loop) × (call_all xs l ≡ some l') × AllInSync l'
  unfolding call_all
  call_all-AllInSync [] l h = (l, refl, h)
  call_all-AllInSync (x ∷ xs) l h =
      let (l', e, h') = call_one-AllInSync x l h in rw (e, ◌>>=◌) (call_all-AllInSync xs l' h')
