-- ===== src/Synthesis/Statements.antt =====
-- src/zion_terminal/agents/synthesis/agent.py: the three statements of a generated company.
use zion_terminal.Base.{String}
use zion_terminal.Base.Int.{ℤ, pos, ◌+ℤ◌, ◌-ℤ◌}
use zion_terminal.Base.Json.{Fields, num, str, end, field}

-- The company dict and the rounded draws of one run.
pub record Draws : Type 0 where
  pub company : Fields
  pub revenue : ℤ
  pub cogs : ℤ
  pub sga : ℤ
  pub rnd : ℤ
  pub interest : ℤ
  pub tax : ℤ → ℤ
  pub cash : ℤ → ℤ
  pub receivables : ℤ → ℤ
  pub inventory : ℤ → ℤ
  pub ppe : ℤ → ℤ
  pub goodwill : ℤ → ℤ
  pub payables : ℤ → ℤ
  pub short_debt : ℤ → ℤ
  pub long_debt : ℤ → ℤ
  pub retained_earnings : ℤ → ℤ
  pub depreciation : ℤ → ℤ
  pub wc_change : ℤ → ℤ
  pub capex : ℤ → ℤ
  pub acquisitions : ℤ → ℤ
  pub debt_change : ℤ → ℤ
  pub dividends : ℤ → ℤ
  pub buybacks : ℤ → ℤ

-- `-x`
abbrev pub neg : ℤ → ℤ
neg z = pos 0 -ℤ z

pub record Income : Type 0 where
  pub revenue : ℤ
  pub cogs : ℤ
  pub gross_profit : ℤ
  pub sga : ℤ
  pub rnd : ℤ
  pub operating_income : ℤ
  pub interest : ℤ
  pub ebt : ℤ
  pub tax : ℤ
  pub net_income : ℤ

-- `_generate_income_statement`: rounded first, then derived exactly
unfoldable pub generate_income : Draws → Income
generate_income d =
    let gross_profit = d.revenue -ℤ d.cogs in
    let operating_income = gross_profit -ℤ d.sga -ℤ d.rnd in
    let ebt = operating_income -ℤ d.interest in
    record {
      revenue = d.revenue;
      cogs = d.cogs;
      gross_profit = gross_profit;
      sga = d.sga;
      rnd = d.rnd;
      operating_income = operating_income;
      interest = d.interest;
      ebt = ebt;
      tax = d.tax ebt;
      net_income = ebt -ℤ d.tax ebt;
    }

abbrev pub amount : String → ℤ → Fields → Fields
amount k z rest = field k (num z) rest

abbrev pub period : Fields → Fields
period rest = field "period" (str "Q4 2025") rest

unfoldable pub income_fields : Income → Fields
income_fields i = period (
    amount "total_revenue" i.revenue (
      amount "cost_of_revenue" i.cogs (
        amount "gross_profit" i.gross_profit (
          amount "selling_general_admin" i.sga (
            amount "research_development" i.rnd (
              amount "operating_income" i.operating_income (
                amount "interest_expense" i.interest (
                  amount "income_before_tax" i.ebt
                    (amount "income_tax" i.tax (amount "net_income" i.net_income end))))))))))

pub record Balance : Type 0 where
  pub cash : ℤ
  pub receivables : ℤ
  pub inventory : ℤ
  pub current_assets : ℤ
  pub ppe : ℤ
  pub goodwill : ℤ
  pub total_assets : ℤ
  pub payables : ℤ
  pub short_debt : ℤ
  pub current_liabilities : ℤ
  pub long_debt : ℤ
  pub total_liabilities : ℤ
  pub total_equity : ℤ
  pub retained_earnings : ℤ

-- `_generate_balance_sheet`: equity is what the assets leave after the liabilities
unfoldable pub generate_balance : Draws → Income → Balance
generate_balance d i =
    let current_assets = d.cash i.revenue +ℤ d.receivables i.revenue +ℤ d.inventory i.cogs in
    let total_assets = current_assets +ℤ d.ppe i.revenue +ℤ d.goodwill i.revenue in
    let current_liabilities = d.payables i.cogs +ℤ d.short_debt i.revenue in
    let total_liabilities = current_liabilities +ℤ d.long_debt i.revenue in
    let total_equity = total_assets -ℤ total_liabilities in
    record {
      cash = d.cash i.revenue;
      receivables = d.receivables i.revenue;
      inventory = d.inventory i.cogs;
      current_assets = current_assets;
      ppe = d.ppe i.revenue;
      goodwill = d.goodwill i.revenue;
      total_assets = total_assets;
      payables = d.payables i.cogs;
      short_debt = d.short_debt i.revenue;
      current_liabilities = current_liabilities;
      long_debt = d.long_debt i.revenue;
      total_liabilities = total_liabilities;
      total_equity = total_equity;
      retained_earnings = d.retained_earnings total_equity;
    }

unfoldable pub balance_fields : Balance → Fields
balance_fields b = period (
    amount "cash_and_equivalents" b.cash (
      amount "accounts_receivable" b.receivables (
        amount "inventory" b.inventory (
          amount "total_current_assets" b.current_assets (
            amount "property_plant_equipment" b.ppe (
              amount "goodwill" b.goodwill (
                amount "total_assets" b.total_assets (
                  amount "accounts_payable" b.payables (
                    amount "short_term_debt" b.short_debt (
                      amount "total_current_liabilities" b.current_liabilities (
                        amount "long_term_debt" b.long_debt (
                          amount "total_liabilities" b.total_liabilities (
                            amount "common_stock" (b.total_equity -ℤ b.retained_earnings) (
                              amount "retained_earnings" b.retained_earnings (
                                amount "total_equity" b.total_equity (
                                  amount "total_liabilities_and_equity"
                                    (b.total_liabilities +ℤ b.total_equity) end))))))))))))))))

pub record CashFlow : Type 0 where
  pub net_income : ℤ
  pub depreciation : ℤ
  pub wc_change : ℤ
  pub operating : ℤ
  pub capex : ℤ
  pub acquisitions : ℤ
  pub investing : ℤ
  pub debt_change : ℤ
  pub dividends : ℤ
  pub buybacks : ℤ
  pub financing : ℤ
  pub net_change : ℤ
  pub beginning_cash : ℤ
  pub ending_cash : ℤ

-- `_generate_cash_flow`; rounding a sum of rounded amounts changes nothing
unfoldable pub generate_cash_flow : Draws → Income → Balance → CashFlow
generate_cash_flow d i b =
    let operating = i.net_income +ℤ d.depreciation b.ppe +ℤ d.wc_change i.net_income in
    let capex = neg (d.capex b.ppe) in
    let acquisitions = neg (d.acquisitions b.goodwill) in
    let investing = capex +ℤ acquisitions in
    let dividends = neg (d.dividends i.net_income) in
    let buybacks = neg (d.buybacks i.net_income) in
    let financing = d.debt_change i.net_income +ℤ dividends +ℤ buybacks in
    let net_change = operating +ℤ investing +ℤ financing in
    record {
      net_income = i.net_income;
      depreciation = d.depreciation b.ppe;
      wc_change = d.wc_change i.net_income;
      operating = operating;
      capex = capex;
      acquisitions = acquisitions;
      investing = investing;
      debt_change = d.debt_change i.net_income;
      dividends = dividends;
      buybacks = buybacks;
      financing = financing;
      net_change = net_change;
      beginning_cash = b.cash -ℤ net_change;
      ending_cash = b.cash;
    }

unfoldable pub cash_flow_fields : CashFlow → Fields
cash_flow_fields c = period (
    amount "net_income" c.net_income (
      amount "depreciation_amortization" c.depreciation (
        amount "working_capital_change" c.wc_change (
          amount "operating_cash_flow" c.operating (
            amount "capital_expenditures" c.capex (
              amount "acquisitions" c.acquisitions (
                amount "investing_cash_flow" c.investing (
                  amount "debt_issuance_repayment" c.debt_change (
                    amount "dividends_paid" c.dividends (
                      amount "share_buybacks" c.buybacks (
                        amount "financing_cash_flow" c.financing (
                          amount "net_change_in_cash" c.net_change (
                            amount "beginning_cash" c.beginning_cash
                              (amount "ending_cash" c.ending_cash end))))))))))))))
