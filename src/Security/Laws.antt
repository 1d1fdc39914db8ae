-- ===== src/Security/Laws.antt =====
-- What `tags` returns.
use compute_sdk_cpp.Prelude.{
  ◌*◌, ◌≡◌, refl, Bytes, List, [], ◌∷◌, ◌++◌, length, length-append, length-replicate, replicate,
  append_assoc, append-nil, arith,
}
use compute_sdk_cpp.Prelude.Effects.{ok}
use compute_sdk_cpp.Host.Inspection.{InspectionHost}
use compute_sdk_cpp.Security.{InspectResponse, tags, resize, back_insert}

back_insert_lem : (ret names : List Bytes) → back_insert ret names ≡ ret ++ names
unfolding back_insert
back_insert_lem ret [] = rw append-nil refl
back_insert_lem ret (name ∷ names) =
    rw (back_insert_lem (ret ++ name ∷ []) names, append_assoc) refl

-- `tags` returns as many empty strings as there are tags, and the tags behind them: twice as many
-- strings as the bridge has tags.
pub tags-length :
    {S Err : Type 0} (host : InspectionHost S Err) (E : Type 0) (r : InspectResponse) (s : S)
    → let (names, s1) = host.tags r.ir s in
      (found : List Bytes) × (tags host {E = E} r s ≡ ok found s1)
      × (found ≡ replicate (length names) [] ++ names)
      × (length found ≡ 2 * length names)
unfolding tags resize
tags-length host E r s =
    let (names, s1) = host.tags r.ir s in
    let empty : Bytes = [] in
    (
      replicate (length names) [] ++ names,
      rw (back_insert_lem (replicate (length names) []) names) refl,
      refl,
      omega (
        arith,
        length-append (replicate (length names) []) names,
        length-replicate (length names) empty,
      ),
    )
