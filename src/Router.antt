-- ===== src/Router.antt =====
-- main.cpp and work.h: the thread of the main program, which takes the tranceivers from the work list
-- and gives their messages to the switchboard.
pub mod Interleavings
pub mod Delivery
use ham_router.Common.{
  ℕ, List, [], ◌∷◌, ◌++◌, length, Bool, true, false, not, if◌then◌else◌, Option, none, some, ◌≡◌,
}
use ham_router.Stats.{store}
use ham_router.Message.{Message, get_content}
use ham_router.Seen.{Doubles, Seen, Cells, check}
use ham_router.Tranceiver.{Tranceiver, peek, get_message}
use ham_router.Switchboard.{Switchboard, Outside, Progress, put_message}

-- The tranceivers by their number, the work list, the global filter for repetitions if there is one,
-- and the world that the tranceivers send to.
pub record Router (W : Type 0) : Type 0 where
  pub tranceivers : ℕ → Tranceiver
  pub work_list : List ℕ
  pub s : Option Seen
  pub cells : Cells
  pub world : W

-- What a round of the thread comes to: it waits for work, the assertion fails, `m.value()` throws, the
-- message is dropped, the null pointer is used since it has no source, or it was given to the switchboard.
pub data Round (W : Type 0) : Type 0 where
  waits aborts throws null_used : Round W
  dropped : Router W → Round W
  put : Progress W → Router W → Round W

-- The id of the source is logged.
abbrev pub needs : {W : Type 0} → Option ℕ → Round W → Round W
needs none r = null_used
needs (some source) r = r

unfoldable pub ask_global : Doubles → ℕ → List ℕ → Option Seen → Cells → Bool × Option Seen × Cells
ask_global d now content none cells = (true, none, cells)
ask_global d now content (some s) cells =
    let (answer, s', cells') = check d now content s cells in (answer.0, some s', cells')

module _ (o : Outside) (d : Doubles) (now fuel : ℕ) (sb : Switchboard o.Regex) where
  open o use {World}

  -- A message of the tranceiver that has work, from the filter on.
  unfoldable pub forward : ℕ → Message → Router World → Round World
  unfolding ask_global
  forward t_has_work m r =
      let (ok, s', cells') = ask_global d now (get_content m) r.s r.cells in
      let r' = record r { s = s'; cells = cells' } in
      if not ok
      then dropped r'
      else needs m.source (put (put_message o true m fuel t_has_work sb r.world) r')

  abbrev got : ℕ → Option Message → Router World → Round World
  got t_has_work none r = throws
  got t_has_work (some m) r = forward t_has_work m r

  -- A round of the loop of `process`.
  unfoldable pub process_round : Router World → Round World
  unfolding forward
  process_round r = elim r.work_list [
    | [] ↦ waits
    | t_has_work ∷ more ↦
        let t = r.tranceivers t_has_work in
        let (m, t') = get_message t in
        let r' = record r { tranceivers = store t_has_work t' r.tranceivers; work_list = more } in
        if not (peek t) then aborts else got t_has_work m r'
  ]

-- What the threads share: `announced` are the tranceivers that have queued a message and have yet to
-- put themselves on the work list, and `held` is the one that the main thread has taken from it.
pub record Shared : Type 0 where
  pub tranceivers : ℕ → Tranceiver
  pub announced : List ℕ
  pub work_list : List ℕ
  pub held : Option ℕ

-- The first critical section of `queue_incoming_message`.
abbrev pub push_incoming : ℕ → Message → Shared → Shared
push_incoming i m st =
    let t = st.tranceivers i in
    record st {
      tranceivers = store i (record t { incoming = t.incoming ++ m ∷ [] }) st.tranceivers;
      announced = i ∷ st.announced;
    }

-- The steps of the threads, each in its own critical section: `arrives` and `lists` are the two of
-- `queue_incoming_message`, on any tranceiver, `takes` and `gets` those of `process`.
pub data Step : Shared → Shared → Type 0 where
  arrives : (st : Shared) (i : ℕ) (m : Message) → Step st (push_incoming i m st)
  lists :
      (st : Shared) (xs ys : List ℕ) (i : ℕ)
      → st.announced ≡ xs ++ i ∷ ys
      → Step st (record st { announced = xs ++ ys; work_list = st.work_list ++ i ∷ [] })
  takes :
      (st : Shared) (i : ℕ) (more : List ℕ)
      → st.held ≡ none
      → st.work_list ≡ i ∷ more
      → Step st (record st { work_list = more; held = some i })
  gets :
      (st : Shared) (i : ℕ)
      → st.held ≡ some i
      → Step st (record st {
        tranceivers = store i (get_message (st.tranceivers i)).1 st.tranceivers;
        held = none;
      })

pub data Reach (st : Shared) : Shared → Type 0 where
  here : Reach st st
  next : {t u : Shared} → Reach st t → Step t u → Reach st u
