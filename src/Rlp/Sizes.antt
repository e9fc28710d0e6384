-- ===== src/Rlp/Sizes.antt =====
-- core/rlp-codec/src/encoder.rs: an item whose layout is short fits.
use rust_eth_playground.Prelude.{◌<◌, ◌^◌, length, length-append, arith}
use rust_eth_playground.Rlp.Item.{RlpItem, RlpItems, bytes, list, nil, cons}
use rust_eth_playground.Rlp.Layout.{rlp, rlp_items, header}
use rust_eth_playground.Rlp.Lengths.{Fits, FitsItems}

mutual
  unfolding rlp rlp_items

  rlp-Fits_rec : (item : RlpItem) → length (rlp item) < 2 ^ 64 → Fits item
  rlp-Fits_rec (bytes content) h =
      ground (arith, length-append (header 0x80 (length content)) content)
  rlp-Fits_rec (list items) h =
      let short : length (rlp_items items) < 2 ^ 64 =
        omega
          (arith, h, length-append (header 0xc0 (length (rlp_items items))) (rlp_items items)) in
      (rlp_items-FitsItems items short, short)

  rlp_items-FitsItems : (items : RlpItems) → length (rlp_items items) < 2 ^ 64 → FitsItems items
  rlp_items-FitsItems nil h = tt
  rlp_items-FitsItems (cons item items) h = (
    rlp-Fits_rec item (omega (arith, h, length-append (rlp item) (rlp_items items))),
    rlp_items-FitsItems items (omega (arith, h, length-append (rlp item) (rlp_items items))),
  )

pub rlp-Fits : (item : RlpItem) → length (rlp item) < 2 ^ 64 → Fits item
rlp-Fits item h = rlp-Fits_rec item h
