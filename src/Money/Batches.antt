-- ===== src/Money/Batches.antt =====
-- The batch of recordVerifiedAdRevenue, and a call that nothing comes between.
use fabushi_backend.Money.Ads.{Plan, check, duplicate, planned}
use fabushi_backend.Prelude.{
  ℕ, ◌+◌, ◌&&◌, not, List, [], ◌∷◌, ◌++◌, leb, text_Eq, ◌==◌, Result, ok, throw_if, ◌>>=◌, ◌>>◌,
  if◌then◌else◌,
}
use fabushi_backend.Text.{Text, codes, has}
use fabushi_backend.Table
use fabushi_backend.Money.Amounts.{Error, batch_failed}
use fabushi_backend.Money.Rows.{Campaign, plus, minus, Line, Ledger, Host, Input}

-- INSERT OR IGNORE
abbrev pub add_account : Text → List Text → List Text
add_account account accounts = if has accounts account then accounts else account ∷ accounts

abbrev pub source_account : Plan → Text
source_account p = codes "advertiser-clearing:" ++ p.advertiser_id ++ codes ":" ++ p.currency

abbrev pub developer_account : Plan → Text
developer_account p = codes "developer-pending:" ++ p.developer_id ++ codes ":" ++ p.currency

abbrev pub platform_account : Plan → Text
platform_account p = codes "platform:ad-revenue:" ++ p.currency

-- UPDATE … WHERE campaign_id = ? AND status = 'active' AND spent_amount + ? <= total_budget
unfoldable pub spend : ℕ → Campaign → Campaign
spend billable c =
    if (c.status == codes "active") && leb (c.spent_amount + billable) c.total_budget
    then record c { spent_amount = c.spent_amount + billable }
    else c

unfoldable pub lines_of : Plan → List Line
lines_of p =
    let entry = codes "ad-revenue:" ++ p.event.ad_event_id in
    record {
      entry_id = entry;
      account_id = source_account p;
      currency = p.currency;
      amount = minus p.event.billable_amount;
    }
    ∷ record {
      entry_id = entry;
      account_id = developer_account p;
      currency = p.currency;
      amount = plus p.shares.developer_amount;
    }
    ∷ record {
      entry_id = entry;
      account_id = platform_account p;
      currency = p.currency;
      amount = plus p.shares.platform_amount;
    }
    ∷ []

-- The statements of the batch.
unfoldable pub written : Ledger → Plan → Ledger
unfolding has spend lines_of
written l p = record l {
  accounts =
      add_account (platform_account p)
        (add_account (developer_account p) (add_account (source_account p) l.accounts));
  ad_events = p.event ∷ l.ad_events;
  campaigns = Table.update l.campaigns p.event.campaign_id (spend p.event.billable_amount);
  lines = lines_of p ++ l.lines;
  revenue =
      record {
        revenue_event_id = codes "revenue:" ++ p.event.ad_event_id;
        source_id = p.event.ad_event_id;
        developer_id = p.developer_id;
        shares = p.shares;
        split_rule_id = p.rule_id;
      }
      ∷ l.revenue;
}

-- `db.batch`, which writes all or nothing
unfoldable pub post : Host → Ledger → Plan → Result Error Ledger
unfolding written
post h l p = do throw_if (not (h.accepts l (written l p))) batch_failed; ok (written l p)

-- A call that nothing comes between.
unfoldable pub record_ad : Host → Ledger → Input → Text → ℕ → Result Error Ledger
unfolding check post
record_ad h l input uuid now = do
  outcome ← check h l input uuid now
  elim outcome [ duplicate id ↦ ok l | planned plan ↦ post h l plan ]
