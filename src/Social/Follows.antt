-- ===== src/Social/Follows.antt =====
-- `follow` and `unfollow` keep each profile's `followersCount` equal to the number of follows.
use south_connect.Prelude.{
  ℕ, ◌≤◌, ◌≡◌, ◌≢◌, refl, sym, subst, ◌⊎◌, inl, inr, ◌&&◌, some, arith, ◌==◌, Bool-cases,
  Option-cases,
}
use south_connect.Prelude.Int.{ℤ, pos, negsuc, ◌+ℤ◌, pos_less_one, pos_one_more}
use south_connect.Database.{Where, Table}
use south_connect.Database.Keyed.{at}
use south_connect.Schema.{UserKey, Follow, BtoCProfile, BtoBProfile, Store, Prisma}
use south_connect.Social.{
  follow_row, is_present, is_following, notify_follow, follow, unfollow, move_followers, of_follow,
  btoc_of, btob_of, btoc_moved, btob_moved,
}
use south_connect.Social.Tally.{count-free, count-removed, count-apart, count-shrinks}

-- The follows of a user.
abbrev pub followed : UserKey → Where Follow
followed user k f = f.following_id == user

-- No two follows of one pair, and both profiles of every user have the exact number of followers.
pub record FollowersExact (prisma : Prisma) (s : Store) : Type 0 where
  pub unique :
      (follower following : UserKey)
      → prisma.follow.count (of_follow follower following) s.follows ≤ 1
  pub btoc :
      (k : ℕ) (p : BtoCProfile)
      → prisma.btoc_profile.find_unique k s.btoc_profiles ≡ some p
      → p.followers_count ≡ pos (prisma.follow.count (followed p.user_id) s.follows)
  pub btob :
      (k : ℕ) (p : BtoBProfile)
      → prisma.btob_profile.find_unique k s.btob_profiles ≡ some p
      → p.followers_count ≡ pos (prisma.follow.count (followed p.user_id) s.follows)

module _ (prisma : Prisma) where
  -- A new follow with its counters.
  abbrev pub with_follow : UserKey → Table Follow → Store → Store
  with_follow following t s = move_followers prisma following (pos 1) (record s { follows = t })

  pub record Stores (new_id : ℕ) (follower following : UserKey) (s t : Store) : Type 0 where
    pub table : Table Follow
    pub made :
        prisma.follow.create
          (of_follow follower following)
          new_id
          (follow_row follower following)
          s.follows
        ≡ some table
    pub served : t ≡ notify_follow prisma follower following (with_follow following table s)

  pub follow_cases :
      (new_id : ℕ) (follower following : UserKey) (s : Store)
      → let t = (follow prisma new_id follower following s).1 in
        (t ≡ s) ⊎ Stores new_id follower following s t
  unfolding follow
  follow_cases new_id follower following s = elim (Bool-cases (follower == following)) [
    | inl self ↦ inl (ground (arith, self))
    | inr other ↦ elim (Option-cases (prisma.user.find_first (at following is_present) s.users)) [
      | inl absent ↦ inl (ground (arith, other, absent))
      | inr (target, found) ↦ elim (Bool-cases (is_following prisma follower following s)) [
        | inl already ↦ inl (ground (arith, other, found, already))
        | inr not_yet ↦
            let row = follow_row follower following in
            elim (Option-cases
              (prisma.follow.create (of_follow follower following) new_id row s.follows)) [
                | inl clash ↦ inl (ground (arith, other, found, not_yet, clash))
                | inr (table, made) ↦ inr (record {
                  table = table;
                  made = made;
                  served = ground (arith, other, found, not_yet, made);
                })
              ]
      ]
    ]
  ]

  -- The profiles of a user move by what the number of the user's follows moves by.
  moved_exact :
      (following : UserKey) (by : ℤ) (t : Table Follow) (s u : Store)
      → FollowersExact prisma s
      → ((a b : UserKey) → prisma.follow.count (of_follow a b) t ≤ 1)
      → pos (prisma.follow.count (followed following) t)
        ≡ pos (prisma.follow.count (followed following) s.follows) +ℤ by
      → ((v : UserKey)
          → v ≢ following
          → prisma.follow.count (followed v) t ≡ prisma.follow.count (followed v) s.follows)
      → u.follows ≡ t
      → u.btoc_profiles ≡ (move_followers prisma following by s).btoc_profiles
      → u.btob_profiles ≡ (move_followers prisma following by s).btob_profiles
      → FollowersExact prisma u
  moved_exact following by t s u exact unique here elsewhere is_t is_btoc is_btob = record {
    unique = λ a b. rw is_t (unique a b);
    btoc = λ k p found. elim (Option-cases (prisma.btoc_profile.find_unique k s.btoc_profiles)) [
      | inl absent ↦ ground (
        arith,
        is_btoc,
        found,
        absent,
        prisma.btoc_profile.find_unique-update_many k (btoc_of following) (btoc_moved by)
            s.btoc_profiles,
      )
      | inr (q, present) ↦ elim (Bool-cases (q.user_id == following)) [
        | inl mine ↦ ground (
          arith,
          is_t,
          is_btoc,
          found,
          present,
          mine,
          here,
          exact.btoc k q present,
          prisma.btoc_profile.find_unique-update_many k (btoc_of following) (btoc_moved by)
              s.btoc_profiles,
        )
        | inr not_mine ↦ ground (
          arith,
          is_t,
          is_btoc,
          found,
          present,
          not_mine,
          elsewhere q.user_id (λ e. ground (arith, e, not_mine)),
          exact.btoc k q present,
          prisma.btoc_profile.find_unique-update_many k (btoc_of following) (btoc_moved by)
              s.btoc_profiles,
        )
      ]
    ];
    btob = λ k p found. elim (Option-cases (prisma.btob_profile.find_unique k s.btob_profiles)) [
      | inl absent ↦ ground (
        arith,
        is_btob,
        found,
        absent,
        prisma.btob_profile.find_unique-update_many k (btob_of following) (btob_moved by)
            s.btob_profiles,
      )
      | inr (q, present) ↦ elim (Bool-cases (q.user_id == following)) [
        | inl mine ↦ ground (
          arith,
          is_t,
          is_btob,
          found,
          present,
          mine,
          here,
          exact.btob k q present,
          prisma.btob_profile.find_unique-update_many k (btob_of following) (btob_moved by)
              s.btob_profiles,
        )
        | inr not_mine ↦ ground (
          arith,
          is_t,
          is_btob,
          found,
          present,
          not_mine,
          elsewhere q.user_id (λ e. ground (arith, e, not_mine)),
          exact.btob k q present,
          prisma.btob_profile.find_unique-update_many k (btob_of following) (btob_moved by)
              s.btob_profiles,
        )
      ]
    ];
  }

  pub follow-FollowersExact :
      (new_id : ℕ) (follower following : UserKey) (s : Store)
      → FollowersExact prisma s
      → FollowersExact prisma (follow prisma new_id follower following s).1
  unfolding notify_follow
  follow-FollowersExact new_id follower following s exact =
      elim (follow_cases new_id follower following s) [
        | inl same ↦ subst (FollowersExact prisma) (sym same) exact
        | inr st ↦
            let row = follow_row follower following in
            let grown = λ (q : Where Follow).
              prisma.follow.count-create (of_follow follower following) new_id row s.follows
                st.table q st.made in
            subst (FollowersExact prisma) (sym st.served) (
              moved_exact following (pos 1) st.table s _ exact
                (λ a b. elim (Bool-cases (follower == a && following == b)) [
                  | inl same ↦ ground (
                    arith,
                    same,
                    grown (of_follow a b),
                    count-free prisma.follow (of_follow follower following) new_id row s.follows
                        st.table st.made,
                  )
                  | inr other ↦ ground (arith, other, grown (of_follow a b), exact.unique a b)
                ])
                (ground (
                  arith,
                  grown (followed following),
                  pos_one_more (prisma.follow.count (followed following) s.follows),
                ))
                (λ v other. ground (arith, other, grown (followed v))) refl refl refl)
      ]

  pub unfollow-FollowersExact :
      (follower following : UserKey) (s : Store)
      → FollowersExact prisma s
      → FollowersExact prisma (unfollow prisma follower following s)
  unfolding unfollow
  unfollow-FollowersExact follower following s exact =
      let pair = of_follow follower following in
      elim (Bool-cases (prisma.follow.count pair s.follows == 0)) [
        | inl none_there ↦ rw none_there exact
        | inr there ↦ rw there (
            moved_exact following (negsuc 0) (prisma.follow.delete_many pair s.follows) s _ exact
              (λ a b. ground (
                arith,
                exact.unique a b,
                count-shrinks prisma.follow pair (of_follow a b) s.follows,
              ))
              (pos_less_one _ _ (
                ground (
                  arith,
                  there,
                  exact.unique follower following,
                  count-removed prisma.follow pair (followed following) s.follows
                      (λ k r h. ground (arith, h)),
                )))
              (λ v other.
                count-apart prisma.follow pair (followed v) s.follows
                  (λ k r h. ground (arith, h, other)))
              refl refl refl)
      ]
