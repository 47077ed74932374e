-- ===== src/Hub/Sound.antt =====
-- What holds of every live session: who is shown as present is who is connected.
use telepair.Base.{
  ℕ, ◌-◌, ◌≤◌, ◌<◌, ◌≡◌, refl, some, List, [], ◌∷◌, ◌++◌, String, ltb, length, length-append,
  is_some, arith, Option-cases, Bool-cases, inl, inr, ap, sym, ◌∙◌,
}
use telepair.Base.Dict.{
  get, is_empty, get-insert, get-remove, is_empty-insert, is_empty-remove, is_empty-get,
}
use mathlib.Core.List.{append_assoc}
use telepair.Core.Role.{Role, role_eq}
use telepair.Core.Protocol.{EvictReason, ParticipantInfo, ChatEntry}
use telepair.Hub.Scrollback.{
  Bytes, empty_scrollback, push, IsBounded, push-IsBounded, Small, push-suffix, dropped,
  saturating_add,
}
use telepair.Hub.Live.{
  LiveSession, new_live, emit_output, add_participant, leave, remove_participant, assign_color,
  evict, record_chat, update_participant_role, chat_history_cap, drop_first, next_count,
}

-- A user is a participant exactly if some connection of theirs is counted.
abbrev pub Tied : LiveSession → Type 0
Tied live = (uid : ℕ) → is_some (get uid live.participants) ≡ is_some (get uid live.connections)

abbrev pub Counted : LiveSession → Type 0
Counted live = (uid n : ℕ) → get uid live.connections ≡ some n → 0 < n

-- The idle clock runs exactly while nobody is connected.
abbrev pub IdleClock : LiveSession → Type 0
IdleClock live = is_some live.idle_since ≡ is_empty live.connections

-- The output so far ends with the scrollback.
abbrev pub Replays : LiveSession → Type 0
Replays live = (older : List Bytes) × (live.output ≡ older ++ live.scrollback.chunks)

pub record IsSound (live : LiveSession) : Type 0 where
  pub tied : Tied live
  pub counted : Counted live
  pub idle : IdleClock live
  pub chat : length live.chat_history ≤ chat_history_cap
  pub buffer : IsBounded live.scrollback
  pub replay : Replays live

pub new_live-IsSound :
    (now : ℕ) (target : String) (cols rows : ℕ) → IsSound (new_live now target cols rows)
unfolding new_live get empty_scrollback
new_live-IsSound now target cols rows = record {
  tied = λ uid. refl;
  counted = λ uid n h. cc;
  idle = refl;
  chat = omega arith;
  buffer = record { counted = refl; capped = omega arith };
  replay = ([], refl);
}

length-drop_first : (es : List ChatEntry) → length (drop_first es) ≡ length es - 1
length-drop_first [] = omega arith
length-drop_first (e ∷ es) = omega arith

module _ (live : LiveSession) (s : IsSound live) where
  pub emit_output-IsSound : (bytes : Bytes) → Small bytes → IsSound (emit_output bytes live)
  unfolding emit_output
  emit_output-IsSound bytes small = record {
    tied = s.tied;
    counted = s.counted;
    idle = s.idle;
    chat = s.chat;
    buffer = push-IsBounded live.scrollback bytes s.buffer small;
    replay =
        let (older, same) = s.replay in
        (
          older
              ++ dropped (live.scrollback.chunks ++ bytes ∷ [])
                  (saturating_add live.scrollback.total (length bytes)),
          ap (λ x. x ++ bytes ∷ []) same
              ∙ append_assoc older live.scrollback.chunks (bytes ∷ [])
              ∙ ap (◌++◌ older) (push-suffix live.scrollback bytes)
              ∙ sym (append_assoc older _ (push live.scrollback bytes).chunks),
        );
  }

  pub add_participant-IsSound :
      (uid : ℕ) (name : String) (role : Role) → IsSound (add_participant uid name role live)
  unfolding add_participant
  add_participant-IsSound uid name role =
      let info : ParticipantInfo = record {
        user_id = uid;
        name = name;
        role = role;
        color = assign_color live.color_counter;
      } in
      record {
        tied = λ u. ground (
          arith,
          s.tied u,
          s.tied uid,
          get-insert uid u (next_count uid live) live.connections,
          get-insert uid u info live.participants,
        );
        counted = λ u n h.
            ground (arith, s.counted u n, get-insert uid u (next_count uid live) live.connections);
        idle = ground (arith, is_empty-insert uid (next_count uid live) live.connections);
        chat = ground (arith, s.chat);
        buffer = ground (arith, s.buffer);
        replay = ground (arith, s.replay);
      }

  pub leave-IsSound : (now uid : ℕ) → IsSound (leave now uid live)
  unfolding leave
  leave-IsSound now uid = record {
    tied = λ u.
        ground
          (arith, s.tied u, get-remove uid u live.connections, get-remove uid u live.participants);
    counted = λ u n h. ground (arith, s.counted u n, get-remove uid u live.connections);
    idle = ground (arith, s.idle, is_empty-remove uid live.connections);
    chat = ground (arith, s.chat);
    buffer = ground (arith, s.buffer);
    replay = ground (arith, s.replay);
  }

  pub remove_participant-IsSound : (now uid : ℕ) → IsSound (remove_participant now uid live).1
  unfolding remove_participant
  remove_participant-IsSound now uid = elim (Option-cases (get uid live.connections)) [
    | inl absent ↦ rw (absent, remove_participant) s
    | inr (count, present) ↦ (elim (Bool-cases (ltb 1 count)) [
      | inl more ↦
          rw (present, remove_participant, more)
            (record {
              tied = λ u. ground (arith, s.tied u, get-insert uid u (count - 1) live.connections);
              counted = λ u n h.
                  ground (arith, s.counted u n, get-insert uid u (count - 1) live.connections);
              idle = ground (
                arith,
                s.idle,
                is_empty-insert uid (count - 1) live.connections,
                is_empty-get uid count live.connections,
              );
              chat = s.chat;
              buffer = s.buffer;
              replay = s.replay;
            })
      | inr last ↦ rw (present, remove_participant, last) (leave-IsSound now uid)
    ])
  ]

  pub evict-IsSound : (now uid : ℕ) (reason : EvictReason) → IsSound (evict now uid reason live).1
  unfolding evict
  evict-IsSound now uid reason = record {
    tied = λ u.
        ground
          (arith, s.tied u, get-remove uid u live.connections, get-remove uid u live.participants);
    counted = λ u n h. ground (arith, s.counted u n, get-remove uid u live.connections);
    idle = ground (arith, s.idle, is_empty-remove uid live.connections);
    chat = ground (arith, s.chat);
    buffer = ground (arith, s.buffer);
    replay = ground (arith, s.replay);
  }

  pub record_chat-IsSound : (entry : ChatEntry) → IsSound (record_chat entry live)
  unfolding record_chat
  record_chat-IsSound entry = record {
    tied = s.tied;
    counted = s.counted;
    idle = s.idle;
    chat = ground (
      arith,
      s.chat,
      length-append live.chat_history (entry ∷ []),
      length-append (drop_first live.chat_history) (entry ∷ []),
      length-drop_first live.chat_history,
    );
    buffer = s.buffer;
    replay = s.replay;
  }

  pub update_participant_role-IsSound :
      (uid : ℕ) (role : Role) → IsSound (update_participant_role uid role live).1
  unfolding update_participant_role
  update_participant_role-IsSound uid role = elim (Option-cases (get uid live.participants)) [
    | inl absent ↦ rw (absent, update_participant_role) s
    | inr (info, present) ↦ (elim (Bool-cases (role_eq info.role role)) [
      | inl same ↦ rw (present, update_participant_role, same) s
      | inr changed ↦
          rw (present, update_participant_role, changed)
            (record {
              tied = λ u. ground (
                arith,
                s.tied u,
                get-insert uid u (record info { role = role }) live.participants,
              );
              counted = s.counted;
              idle = s.idle;
              chat = s.chat;
              buffer = s.buffer;
              replay = s.replay;
            })
    ])
  ]
