-- ===== src/HaSite/ReadingExamples.antt =====
-- Runs and an instance for reading the sites: one server with two nodes.
use relay_proxy.Base.{
  ◌≡◌, refl, codes, eqb, none, some, [], ◌∷◌, ok, throw, Exception, config_exception, err_conf,
  bytes_key,
}
use relay_proxy.Url.{find_char}
use relay_proxy.Text.{
  split, split_from, strchug, strchomp, trim_end, is_space, atoi, signed_value, digits_value,
}
use relay_proxy.HaSite.{HaSiteInfo}
use relay_proxy.HaSite.Examples.{site}
use relay_proxy.HaSite.Reading.{
  SiteNodeElement, SiteElement, read_nodes, start_site, read_site, read_sites, get_hasite_conf,
  reload,
}

abbrev element_sz : SiteNodeElement
element_sz = record { ip = codes "10.1.0.1"; port = codes "7000"; idc = some (codes "sz") }

abbrev element_sh : SiteNodeElement
element_sh = record element_sz { ip = codes "10.2.0.1"; idc = some (codes "sh") }

abbrev core : SiteElement
core = record {
  server_name = codes "core";
  estop_time = codes "30";
  protocol = codes "tcp";
  switch_order = some (codes "sh:sz");
  nodes = element_sz ∷ element_sh ∷ [];
}

abbrev read_core : HaSiteInfo
read_core = record site {
  switch_order_list = codes "sh" ∷ codes "sz" ∷ [];
  current_idc = codes "sh";
}

read_site_test : read_site core ≡ ok read_core
unfolding read_site read_nodes start_site split split_from find_char strchug strchomp trim_end
    is_space atoi signed_value digits_value eqb
read_site_test = refl

-- Without an order the elements give it; a sixth one finds no room; no element is an error.
default_order_test :
    read_site (record core { switch_order = none })
    ≡ ok (record read_core {
      switch_order_list = codes "sz" ∷ codes "sh" ∷ [];
      current_idc = codes "sz";
    })
unfolding read_site read_nodes start_site strchug is_space atoi signed_value digits_value eqb
default_order_test = refl

six_nodes_test :
    reload (
      record core {
        nodes = element_sz ∷ element_sz ∷ element_sz ∷ element_sz ∷ element_sz ∷ element_sz ∷ [];
      }
      ∷ [])
    ≡ throw Exception.out_of_range
unfolding reload get_hasite_conf read_sites read_site read_nodes eqb
six_nodes_test = refl

no_site_test : reload [] ≡ throw (config_exception err_conf)
unfolding reload get_hasite_conf
no_site_test = refl
