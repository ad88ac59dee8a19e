-- ===== src/Worker/Writer/Laws.antt =====
-- The defaults of a row, and the counter of the rows.
use quantumbilling.Common.{
  ◌+◌, ◌%◌, ◌^◌, ◌<◌, ◌≡◌, refl, ap, List, [], ◌∷◌, ◌++◌, map, length, length-append, arith, text,
}
use quantumbilling.Models.{UsageEvent}
use quantumbilling.Worker.Writer.{
  Writer, default_event, insert_event_batch, ids, SinkLaws, writer_sink,
}

ids-default : (es : List UsageEvent) → ids (map default_event es) ≡ ids es
unfolding default_event
ids-default [] = refl
ids-default (e ∷ es) = ap (λ t. e.event_id ∷ t) (ids-default es)

ids-insert_event_batch :
    (es : List UsageEvent) (w : Writer) → ids (insert_event_batch es w).0 ≡ ids es
unfolding insert_event_batch
ids-insert_event_batch [] w = refl
ids-insert_event_batch (e ∷ es) w = ids-default (e ∷ es)

pub writer_sink-SinkLaws : SinkLaws writer_sink
writer_sink-SinkLaws = record { ids-insert = ids-insert_event_batch }

map-default-append :
    (es fs : List UsageEvent)
    → map default_event (es ++ fs) ≡ map default_event es ++ map default_event fs
map-default-append [] fs = refl
map-default-append (e ∷ es) fs = ap (λ t. default_event e ∷ t) (map-default-append es fs)

insert_event_batch-eq :
    (es : List UsageEvent) (w : Writer)
    → w.inserted_rows < 2 ^ 64
    → insert_event_batch es w
      ≡ (map default_event es, record w { inserted_rows = (w.inserted_rows + length es) % 2 ^ 64 })
unfolding insert_event_batch
insert_event_batch-eq [] w h = ap (λ n. ([], record w { inserted_rows = n })) (omega (arith, h))
insert_event_batch-eq (e ∷ es) w h = refl

-- Two batches, one after the other, leave the writer as one batch of both does, with a counter
-- below 2^64: each event is defaulted once, on its own, and the rows add up.
pub insert_event_batch-append :
    (es fs : List UsageEvent) (w : Writer)
    → w.inserted_rows < 2 ^ 64
    → insert_event_batch (es ++ fs) w ≡ (
      (insert_event_batch es w).0 ++ (insert_event_batch fs (insert_event_batch es w).1).0,
      (insert_event_batch fs (insert_event_batch es w).1).1,
    )
insert_event_batch-append es fs w h =
    rw
      (
        insert_event_batch-eq es w h,
        insert_event_batch-eq (es ++ fs) w h,
        insert_event_batch-eq fs
            (record w { inserted_rows = (w.inserted_rows + length es) % 2 ^ 64 }) (omega arith),
        map-default-append es fs,
        length-append es fs,
      )
      (ap (λ n. (map default_event es ++ map default_event fs, record w { inserted_rows = n }))
        (omega arith))

-- A row's defaults are stable: a second insert of a batch that was requeued changes nothing.
pub default_event_idem : (e : UsageEvent) → default_event (default_event e) ≡ default_event e
unfolding default_event text
default_event_idem e = ground arith
